-- ===== src/UnitPromises/Events.antt =====
-- ffi/rpc_bridge_runtime.cpp, class RuntimeLoop: any sequence of requests about promises without a
-- value and of turns of the event loop.
use lean_capnproto.Prelude.{ℕ, arith, refl, ◌^◌, ◌+◌, Option, none, some, List, [], ◌∷◌, length}
use lean_capnproto.Prelude.Table.{find, contains}
use lean_capnproto.Prelude.Alloc.{allocate}
use lean_capnproto.UnitPromises.{
  Promises, Awaits, add_promise_as, add_unit_promise, change_task, answer, cancel_unit_promise,
  release_unit_promise, await_request, with_completion, finish,
}
use lean_capnproto.UnitPromises.Answers.{
  IsAnswered, IsAsking, Similar-IsAnsweredBut, change_task-Similar, asking, awaited_as,
}
use lean_capnproto.UnitPromises.Runs.{
  cancel_unit_promise-Ends, release_unit_promise-Ends, answer-IsAnswered, await_request-IsAnswered,
  finish-IsAnswered,
}

-- `progress` is a turn of the event loop that a task's promise takes part in.
pub data Event (P T : Type 0) : Type 0 where
  start : P → Event P T
  await_promise cancel_promise release_promise end_of : ℕ → Event P T
  progress : T → ℕ → Event P T

module _ (kj : Promises) where
  open kj use {Promise, Turn, advance}

  abbrev pub no_awaits : Awaits kj
  no_awaits = record {
    unit_promises = [];
    next_unit_promise_id = 1;
    active_cancelers = [];
    tasks = [];
    completions = [];
    next_completion = 0;
  }

  abbrev cancel_request : ℕ → ℕ → Awaits kj → Awaits kj
  cancel_request id c s = answer kj c (cancel_unit_promise kj id s)

  abbrev release_request : ℕ → ℕ → Awaits kj → Awaits kj
  release_request id c s = answer kj c (release_unit_promise kj id s)

  pub step : Event Promise Turn → Awaits kj → Awaits kj
  step (start p) s = (add_unit_promise kj p s).1
  step (await_promise id) s = with_completion kj (await_request kj id) s
  step (cancel_promise id) s = with_completion kj (cancel_request id) s
  step (release_promise id) s = with_completion kj (release_request id) s
  step (end_of c) s = finish kj c s
  step (progress turn c) s = change_task kj (advance turn) c s

  pub run : List (Event Promise Turn) → Awaits kj → Awaits kj
  unfolding step
  run [] s = s
  run (e ∷ events) s = run events (step e s)

  added-IsAnswered :
      (p : Promise) (o : Option (ℕ × ℕ)) (s : Awaits kj)
      → IsAnswered kj s
      → IsAnswered kj (add_promise_as kj p o s).1
  unfolding add_promise_as
  added-IsAnswered p none s h = h
  added-IsAnswered p (some (id, next)) s h =
      Similar-IsAnsweredBut kj s _
        (record { tasks = λ _. refl; active = refl; completions = refl; next = refl }) h

  -- A request begins with a new completion.
  asked-IsAnswered :
      (request : ℕ → Awaits kj → Awaits kj)
      → ((k : ℕ) (s : Awaits kj) → IsAsking kj k s → IsAnswered kj (request k s))
      → (s : Awaits kj) → IsAnswered kj s
      → IsAnswered kj (with_completion kj request s)
  unfolding with_completion
  asked-IsAnswered request keeps s h = keeps s.next_completion _ (asking kj s h)

  step-IsAnswered :
      (e : Event Promise Turn) (s : Awaits kj) → IsAnswered kj s → IsAnswered kj (step e s)
  unfolding step add_unit_promise
  step-IsAnswered (start p) s h =
      added-IsAnswered p
        (allocate (2 ^ 32) (λ i. contains i s.unit_promises) (length s.unit_promises + 1)
          s.next_unit_promise_id)
        s h
  step-IsAnswered (await_promise id) s h =
      asked-IsAnswered (await_request kj id) (λ k. await_request-IsAnswered kj k id) s h
  step-IsAnswered (cancel_promise id) s h =
      asked-IsAnswered (cancel_request id)
        (λ k s' a.
          let (n, b) = (cancel_unit_promise-Ends kj k id).ends s' a in
          answer-IsAnswered kj k _ _ n b)
        s h
  step-IsAnswered (release_promise id) s h =
      asked-IsAnswered (release_request id)
        (λ k s' a.
          let (n, b) = (release_unit_promise-Ends kj k id).ends s' a in
          answer-IsAnswered kj k _ _ n b)
        s h
  step-IsAnswered (end_of c) s h = finish-IsAnswered kj c s h
  step-IsAnswered (progress turn c) s h =
      Similar-IsAnsweredBut kj s _ (change_task-Similar kj (advance turn) c s) h

  run_from :
      (events : List (Event Promise Turn)) (s : Awaits kj)
      → IsAnswered kj s
      → IsAnswered kj (run events s)
  unfolding run
  run_from [] s h = h
  run_from (e ∷ events) s h = run_from events (step e s) (step-IsAnswered e s h)

  -- After any sequence of promises that start, of requests that await, cancel or release them, and of
  -- turns of the event loop, each completion that Lean was given is written, unless a task is in
  -- flight that is to write it, and then it is not written yet; each active canceler is that of a task
  -- in flight, which was awaited by the id that the canceler is kept under.
  pub run-IsAnswered : (events : List (Event Promise Turn)) → IsAnswered kj (run events no_awaits)
  unfolding find contains awaited_as
  run-IsAnswered events = run_from events no_awaits (record {
    active = λ id c q. ground (arith, q);
    answered = λ c a n q. ground (arith, q);
    idle = λ c q. ground (arith, q);
    asked = λ c q. absurd (ground (arith, q));
    later = λ c q. refl;
  })
