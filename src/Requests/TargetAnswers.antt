-- ===== src/Requests/TargetAnswers.antt =====
-- ffi/rpc_bridge_runtime.cpp: requests for targets and promise capabilities, from the queue to the
-- answer.
use lean_capnproto.Prelude.{ℕ, suc, ◌<◌, ◌≡◌, ◌≢◌, refl, true, some, List, length}
use lean_capnproto.Prelude.Exec.{Outcome, returns, throws, loops}
use lean_capnproto.Prelude.Exec.Ends.{Ends}
use lean_capnproto.Prelude.Result.{Result, ok, err}
use lean_capnproto.Completions.{Text}
use lean_capnproto.Targets.{Rpc, State, TargetError, Op}
use lean_capnproto.Targets.Resolves.Room.{
  Fits, fewer, fewer_fulfillers, new_promise_capability-Ends, release_target-Ends,
  release_targets-Ends, retain_target-Ends, promise_capability_fulfill-Ends, flush-Ends,
  promise_capability_reject-Ends, promise_capability_release-Ends, set_hold-Ends,
}
use lean_capnproto.Requests.{Loop, running, Event, run, fresh_loop}
use lean_capnproto.Requests.Served.{HasRoom, Serves, work_times, work_times-serve}
use lean_capnproto.Requests.Answered.{is_done, run-is_done}
use lean_capnproto.Requests.TargetService.{
  Reply, TargetRequest, queued_release_target, queued_retain_target, queued_release_targets,
  queued_new_promise_capability, queued_fulfill, queued_reject, queued_release_fulfiller,
  queued_set_resolve_hold, queued_flush_held_resolves, queued_held_resolve_count, answer_with,
  try_handler, handle, target_service,
}

module _ (rpc : Rpc) (what : TargetError → Text) where
  open rpc use {Client}

  abbrev Holds : ℕ → State rpc → Type 0
  Holds n = Fits rpc n n

  answer_some :
      {A : Type 0} (reply : A → Reply) (o : Outcome TargetError A)
      → o ≢ loops
      → (x : Result Text Reply) × (answer_with what reply o ≡ some x)
  unfolding answer_with
  answer_some reply (returns a) n = (ok (reply a), refl)
  answer_some reply (throws e) n = (err (what e), refl)
  answer_some reply loops n = absurd (n refl)

  try_returns :
      {A : Type 0} {P Q : State rpc → Type 0} {m : Op rpc A} (reply : A → Reply)
      → Ends P Q m
      → (s : State rpc) → P s
      → ((x : Result Text Reply) × ((try_handler rpc what reply m s).0 ≡ some x))
        × Q (try_handler rpc what reply m s).1
  unfolding try_handler
  try_returns {m = m} reply e s h = let (n, q) = e.ends s h in (answer_some reply (m s).0 n, q)

  handle_returns :
      (n : ℕ) (s : State rpc) (r : TargetRequest Client)
      → Holds (suc n) s
      → ((x : Result Text Reply) × ((handle rpc what r s).0 ≡ some x))
        × Holds n (handle rpc what r s).1
  unfolding handle
  handle_returns n s (queued_release_target target) h =
      try_returns _ (release_target-Ends rpc n n target) s (fewer rpc n n s h)
  handle_returns n s (queued_release_targets targets) h =
      try_returns _ (release_targets-Ends rpc n n targets) s (fewer rpc n n s h)
  handle_returns n s (queued_retain_target target) h =
      try_returns _ (retain_target-Ends rpc n n target) s (fewer_fulfillers rpc (suc n) n s h)
  handle_returns n s (queued_new_promise_capability client fulfiller) h =
      try_returns _ (new_promise_capability-Ends rpc n n client fulfiller) s h
  handle_returns n s (queued_fulfill id target) h =
      try_returns _ (promise_capability_fulfill-Ends rpc n n id target) s (fewer rpc n n s h)
  handle_returns n s (queued_reject id tag message detail) h =
      try_returns _ (promise_capability_reject-Ends rpc n n id tag message detail) s
        (fewer rpc n n s h)
  handle_returns n s (queued_release_fulfiller id) h =
      try_returns _ (promise_capability_release-Ends rpc n n id) s (fewer rpc n n s h)
  handle_returns n s (queued_set_resolve_hold enabled) h =
      try_returns _ (set_hold-Ends rpc n n enabled) s (fewer rpc n n s h)
  handle_returns n s queued_flush_held_resolves h =
      try_returns _ (flush-Ends rpc n n) s (fewer rpc n n s h)
  handle_returns n s queued_held_resolve_count h = ((_, refl), fewer rpc n n s h)

  target_service-HasRoom : HasRoom (target_service rpc what) Holds
  target_service-HasRoom = record {
    less = λ n s h. fewer rpc n n s h;
    returns_with = λ n s r h. handle_returns n s r h;
  }

  -- Where there is room for as many targets and promise capabilities as requests wait in the queue, a
  -- running worker that goes through as many rounds empties the queue, and its tables and all
  -- completions are what direct calls of the handlers, one after the other in the order of the queue,
  -- make of them.
  pub queue-Serves :
      (l : Loop (target_service rpc what))
      → l.worker ≡ running
      → Fits rpc (length l.queue) (length l.queue) l.state
      → Serves (target_service rpc what) l
  queue-Serves = work_times-serve (target_service rpc what) Holds target_service-HasRoom

  -- From tables with room for as many targets and promise capabilities as there are events: whatever
  -- requests for targets and promise capabilities are made and wherever the runtime is told to stop,
  -- with the rounds of the worker anywhere in between, after as many more rounds as there are requests
  -- in the queue every completion that was given out is done, also those of requests that came when
  -- the runtime was stopping.
  pub requests-is_done :
      (es : List (Event (target_service rpc what))) (s : State rpc) (i : ℕ)
      → Fits rpc (length es) (length es) s
      → i
        < (run
            (target_service rpc what)
            es
            (fresh_loop (target_service rpc what) s)).next_completion
      → let l = run (target_service rpc what) es (fresh_loop (target_service rpc what) s) in
        is_done
          (target_service rpc what)
          i
          (work_times (target_service rpc what) (length l.queue) l).completions
        ≡ true
  requests-is_done es s i h lt =
      run-is_done (target_service rpc what) Holds target_service-HasRoom es s h i lt
