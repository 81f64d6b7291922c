-- ===== src/UnitPromises.antt =====
-- ffi/rpc_bridge_runtime.cpp, class RuntimeLoop: the promises without a value that Lean holds by
-- number. Lean may await one, which makes it a task of the worker whose end completes what Lean waits
-- for, or cancel or release it, before it is awaited or while it is a task. What KJ does to a promise
-- is a parameter (`Promises`).
pub mod Answers
pub mod Runs
pub mod Events
use lean_capnproto.Prelude.{
  ℕ, ◌+◌, ◌^◌, true, false, Option, none, some, List, [], ◌∷◌, ◌++◌, codes, length,
}
use lean_capnproto.Prelude.Exec.{Exec, Outcome, returns, throws, loops}
use lean_capnproto.Prelude.Result.{Result, ok, err}
use lean_capnproto.Prelude.Table.{Table, find, contains, erase, assign}
use lean_capnproto.Prelude.Alloc.{allocate}
use lean_capnproto.Completions.{Text, UnitCompletion, complete_unit_success, complete_unit_failure}

-- `cancel` is `Canceler::cancel` with a message, `drop` the end of the canceler, `advance` a turn of
-- the event loop; `settled` is the end of a promise, an exception given by its description.
pub record Promises : Type 1 where
  pub Promise : Type 0
  pub Turn : Type 0
  pub advance : Turn → Promise → Promise
  pub cancel : Text → Promise → Promise
  pub drop : Promise → Promise
  pub settled : Promise → Option (Result Text (Unit {0}))
  pub to_string : ℕ → Text

abbrev pub new_completion : UnitCompletion
new_completion = record { done = false; success = false; error = []; value = tt }

abbrev canceled_message : Text
canceled_message = codes "Capnp.Rpc unit promise canceled from Lean"

module _ (kj : Promises) where
  open kj use {Promise, advance, cancel, drop, settled, to_string}

  pub record Task : Type 0 where
    pub promise : Promise
    pub promise_id : ℕ

  -- A task is known by the number of its completion, and an active canceler by the task that it
  -- cancels.
  pub record Awaits : Type 0 where
    pub unit_promises : Table Promise
    pub next_unit_promise_id : ℕ
    pub active_cancelers : Table ℕ
    pub tasks : Table Task
    pub completions : Table UnitCompletion
    pub next_completion : ℕ

  abbrev pub Op : Type 0 → Type 0
  Op A = Exec Awaits Text A

  unfoldable add_promise_as : Promise → Option (ℕ × ℕ) → Op ℕ
  add_promise_as p none s = (loops, s)
  add_promise_as p (some (id, next)) s = (
    returns id,
    record s { unit_promises = assign id p s.unit_promises; next_unit_promise_id = next },
  )

  unfoldable pub add_unit_promise : Promise → Op ℕ
  unfolding add_promise_as
  add_unit_promise p s =
      add_promise_as p
        (allocate (2 ^ 32) (λ i. contains i s.unit_promises) (length s.unit_promises + 1)
          s.next_unit_promise_id)
        s

  abbrev pub unknown_unit_promise : ℕ → Text
  unknown_unit_promise id = codes "unknown RPC unit promise id: " ++ to_string id

  unfoldable pub take_found : ℕ → Option Promise → Op Promise
  take_found id none s = (throws (unknown_unit_promise id), s)
  take_found id (some p) s = (returns p, record s { unit_promises = erase id s.unit_promises })

  unfoldable pub take_unit_promise_for_await : ℕ → Op Promise
  unfolding take_found
  take_unit_promise_for_await id s = take_found id (find id s.unit_promises) s

  unfoldable pub change_found : (Promise → Promise) → ℕ → Option Task → Table Task → Table Task
  change_found f c none tasks = tasks
  change_found f c (some t) tasks = assign c (record t { promise = f t.promise }) tasks

  -- A change of the promise of one task.
  unfoldable pub change_task : (Promise → Promise) → ℕ → Awaits → Awaits
  unfolding change_found
  change_task f c s = record s { tasks = change_found f c (find c s.tasks) s.tasks }

  -- The end of a canceler, if there is one.
  unfoldable pub drop_canceler : Option ℕ → Awaits → Awaits
  unfolding change_task
  drop_canceler none s = s
  drop_canceler (some c) s = change_task drop c s

  unfoldable pub erase_active : ℕ → Awaits → Awaits
  unfolding drop_canceler
  erase_active id s =
      let dropped = drop_canceler (find id s.active_cancelers) s in
      record dropped { active_cancelers = erase id dropped.active_cancelers }

  -- A canceler that has the id already is replaced, which is its end.
  unfoldable pub schedule_unit_promise_completion : ℕ → Promise → ℕ → Awaits → Awaits
  unfolding erase_active
  schedule_unit_promise_completion id p c s =
      let erased = erase_active id s in
      record erased {
        active_cancelers = assign id c erased.active_cancelers;
        tasks = assign c (record { promise = p; promise_id = id }) erased.tasks;
      }

  unfoldable pub cancel_active : ℕ → Option ℕ → Op (Unit {0})
  unfolding change_task
  cancel_active id none s = (throws (unknown_unit_promise id), s)
  cancel_active id (some c) s = (returns tt, change_task (cancel canceled_message) c s)

  unfoldable pub cancel_found : ℕ → Option Promise → Op (Unit {0})
  unfolding cancel_active
  cancel_found id none s = cancel_active id (find id s.active_cancelers) s
  cancel_found id (some p) s = (
    returns tt,
    record s { unit_promises = assign id (cancel canceled_message p) s.unit_promises },
  )

  unfoldable pub cancel_unit_promise : ℕ → Op (Unit {0})
  unfolding cancel_found
  cancel_unit_promise id s = cancel_found id (find id s.unit_promises) s

  unfoldable pub release_active : ℕ → Option ℕ → Op (Unit {0})
  unfolding erase_active
  release_active id none s = (throws (unknown_unit_promise id), s)
  release_active id (some c) s = (returns tt, erase_active id s)

  unfoldable pub release_looked_up : ℕ → Option Promise → Op (Unit {0})
  unfolding release_active
  release_looked_up id none s = release_active id (find id s.active_cancelers) s
  release_looked_up id (some p) s =
      (returns tt, record s { unit_promises = erase id s.unit_promises })

  unfoldable pub release_unit_promise : ℕ → Op (Unit {0})
  unfolding release_looked_up
  release_unit_promise id s = release_looked_up id (find id s.unit_promises) s

  -- How the worker's branches for these requests end: the completion gets the outcome.
  unfoldable pub complete : ℕ → UnitCompletion → Awaits → Awaits
  complete c a s = record s { completions = assign c a s.completions }

  unfoldable pub answer : ℕ → Outcome Text (Unit {0}) × Awaits → Awaits
  unfolding complete
  answer c (returns _, s) = complete c (complete_unit_success new_completion) s
  answer c (throws message, s) = complete c (complete_unit_failure message new_completion) s
  answer c (loops, s) = s

  unfoldable pub await_taken : ℕ → ℕ → Outcome Text Promise × Awaits → Awaits
  unfolding schedule_unit_promise_completion complete
  await_taken id c (returns p, s) = schedule_unit_promise_completion id p c s
  await_taken id c (throws message, s) = complete c (complete_unit_failure message new_completion) s
  await_taken id c (loops, s) = s

  unfoldable pub await_request : ℕ → ℕ → Awaits → Awaits
  unfolding await_taken take_unit_promise_for_await
  await_request id c s = await_taken id c (take_unit_promise_for_await id s)

  -- A request comes with a new completion.
  unfoldable pub with_completion : (ℕ → Awaits → Awaits) → Awaits → Awaits
  with_completion request s = request s.next_completion (record s {
    completions = assign s.next_completion new_completion s.completions;
    next_completion = s.next_completion + 1;
  })

  -- What `then` has been given for the two ends of the promise.
  abbrev pub completion_of : Result Text (Unit {0}) → UnitCompletion
  completion_of (ok _) = complete_unit_success new_completion
  completion_of (err message) = complete_unit_failure message new_completion

  unfoldable pub end_task : ℕ → ℕ → UnitCompletion → Awaits → Awaits
  unfolding erase_active complete
  end_task id c a s =
      let erased = erase_active id s in
      complete c a (record erased { tasks = erase c erased.tasks })

  unfoldable pub settle_task : ℕ → ℕ → Option (Result Text (Unit {0})) → Awaits → Awaits
  unfolding end_task
  settle_task id c none s = s
  settle_task id c (some r) s = end_task id c (completion_of r) s

  unfoldable pub finish_found : ℕ → Option Task → Awaits → Awaits
  unfolding settle_task
  finish_found c none s = s
  finish_found c (some t) s = settle_task t.promise_id c (settled t.promise) s

  -- The worker runs the continuation of a task, if its promise has come to an end.
  unfoldable pub finish : ℕ → Awaits → Awaits
  unfolding finish_found
  finish c s = finish_found c (find c s.tasks) s
