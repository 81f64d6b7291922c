-- ===== src/KjPromises/Calls.antt =====
-- ffi/kj_async_bridge.cpp: any sequence of the operations on promises and task sets, as the worker
-- thread runs them.
use lean_capnproto.Prelude.{
  ℕ, ◌+◌, ◌^◌, refl, List, [], ◌∷◌, ◌==◌, arith, inl, inr, Bool-cases, Option-cases, length,
}
use lean_capnproto.Prelude.Exec.Keeps.{Keeps}
use lean_capnproto.Prelude.Table.{find, contains, elem}
use lean_capnproto.Prelude.Alloc.{allocate}
use lean_capnproto.KjPromises.{
  Kj, TaskSet, Runtime, fresh_runtime, Op, add_promise, retire, promise_all_start,
  promise_race_start, promise_then_start, promise_catch_start, await_promise, cancel_promise,
  release_promise,
}
use lean_capnproto.KjPromises.TaskSets.{
  empty_task_set, add_task_set, task_set_new, task_set_release, with_task_set, put_task_set,
  move_task, task_set_add_promise, task_set_clear, task_set_is_empty, task_set_on_empty_start,
  task_set_error_count, task_set_take_last_error,
}
use lean_capnproto.KjPromises.Ids.{
  IsWell, retire-IsWell, add_promise-IsWell, promise_all_start-IsWell, promise_race_start-IsWell,
  promise_then_start-IsWell, promise_catch_start-IsWell, await_promise-IsWell,
  cancel_promise-IsWell, release_promise-IsWell,
}

-- `add` stands for each operation that makes a promise out of nothing, a timer for instance.
pub data Call (P : Type 0) : Type 0 where
  add : P → Call P
  all_start race_start : List ℕ → Call P
  then_start catch_start : ℕ → ℕ → Call P
  await cancel release : ℕ → Call P
  new_task_set : Call P
  release_task_set clear_task_set ask_empty on_empty ask_errors take_error : ℕ → Call P
  add_task : ℕ → ℕ → Call P

module _ (kj : Kj) where
  open kj use {Promise}

  pub call : Call Promise → Runtime Promise → Runtime Promise
  call (add p) s = (add_promise kj p s).1
  call (all_start ids) s = (promise_all_start kj ids s).1
  call (race_start ids) s = (promise_race_start kj ids s).1
  call (then_start i j) s = (promise_then_start kj i j s).1
  call (catch_start i j) s = (promise_catch_start kj i j s).1
  call (await id) s = (await_promise kj id s).1
  call (cancel id) s = (cancel_promise kj id s).1
  call (release id) s = (release_promise kj id s).1
  call new_task_set s = (task_set_new kj s).1
  call (release_task_set id) s = (task_set_release kj id s).1
  call (clear_task_set id) s = (task_set_clear kj id s).1
  call (ask_empty id) s = (task_set_is_empty kj id s).1
  call (on_empty id) s = (task_set_on_empty_start kj id s).1
  call (ask_errors id) s = (task_set_error_count kj id s).1
  call (take_error id) s = (task_set_take_last_error kj id s).1
  call (add_task id promise_id) s = (task_set_add_promise kj id promise_id s).1

  pub run : List (Call Promise) → Runtime Promise → Runtime Promise
  unfolding call
  run [] s = s
  run (c ∷ calls) s = run calls (call c s)

  -- The task sets have no part in it.
  put-IsWell :
      (id : ℕ) (t : TaskSet Promise) (s : Runtime Promise)
      → IsWell s
      → IsWell (put_task_set kj id t s)
  unfolding put_task_set
  put-IsWell id t s h = record { counter = h.counter; distinct = h.distinct; apart = h.apart }

  add_task_set-IsWell : (t : TaskSet Promise) → Keeps IsWell (add_task_set kj t)
  unfolding add_task_set
  add_task_set-IsWell t = record {
    after = λ s h.
        elim (Option-cases (
          allocate (2 ^ 32) (λ i. contains i s.task_sets) (length s.task_sets + 1)
            s.next_task_set_id)) [
              | inl e ↦ rw (e, add_task_set) h
              | inr ((id, next), e) ↦
                  rw (e, add_task_set)
                    (record { counter = h.counter; distinct = h.distinct; apart = h.apart })
            ];
  }

  task_set_release-IsWell : (id : ℕ) → Keeps IsWell (task_set_release kj id)
  unfolding task_set_release
  task_set_release-IsWell id = record {
    after = λ s h. elim (Bool-cases (contains id s.task_sets)) [
      | inl e ↦
          rw (e, task_set_release)
            (record { counter = h.counter; distinct = h.distinct; apart = h.apart })
      | inr e ↦ rw (e, task_set_release) h
    ];
  }

  with_task_set-IsWell :
      {A : Type 0} (id : ℕ) (f : TaskSet Promise → Op kj A)
      → ((t : TaskSet Promise) → Keeps IsWell (f t))
      → Keeps IsWell (with_task_set kj id f)
  unfolding with_task_set
  with_task_set-IsWell id f k = record {
    after = λ s h. elim (Option-cases (find id s.task_sets)) [
      | inl e ↦ rw (e, with_task_set) h
      | inr (t, e) ↦ rw (e, with_task_set) ((k t).after s h)
    ];
  }

  move_task-IsWell :
      (id promise_id : ℕ) (t : TaskSet Promise) → Keeps IsWell (move_task kj id promise_id t)
  unfolding move_task
  move_task-IsWell id promise_id t = record {
    after = λ s h. elim (Option-cases (find promise_id s.promises)) [
      | inl e ↦ rw (e, move_task) h
      | inr (p, e) ↦
          rw (e, move_task)
            (put-IsWell id _ (retire kj promise_id s) (retire-IsWell kj promise_id s h))
    ];
  }

  task_set_take_last_error-IsWell : (id : ℕ) → Keeps IsWell (task_set_take_last_error kj id)
  unfolding task_set_take_last_error
  task_set_take_last_error-IsWell id = with_task_set-IsWell id _ λ t. record {
    after = λ s h. elim (Bool-cases (length t.last_error == 0)) [
      | inl e ↦ rw e h
      | inr e ↦ rw e (put-IsWell id (record t { last_error = [] }) s h)
    ];
  }

  task_set_clear-IsWell : (id : ℕ) → Keeps IsWell (task_set_clear kj id)
  unfolding task_set_clear
  task_set_clear-IsWell id =
      with_task_set-IsWell id _
        λ t. record { after = λ s h. put-IsWell id (record t { tasks = [] }) s h }

  task_set_is_empty-IsWell : (id : ℕ) → Keeps IsWell (task_set_is_empty kj id)
  unfolding task_set_is_empty
  task_set_is_empty-IsWell id = with_task_set-IsWell id _ λ t. record { after = λ s h. h }

  task_set_error_count-IsWell : (id : ℕ) → Keeps IsWell (task_set_error_count kj id)
  unfolding task_set_error_count
  task_set_error_count-IsWell id = with_task_set-IsWell id _ λ t. record { after = λ s h. h }

  task_set_on_empty_start-IsWell : (id : ℕ) → Keeps IsWell (task_set_on_empty_start kj id)
  unfolding task_set_on_empty_start
  task_set_on_empty_start-IsWell id =
      with_task_set-IsWell id _ λ t. add_promise-IsWell kj (kj.on_empty t.tasks)

  task_set_add_promise-IsWell :
      (id promise_id : ℕ) → Keeps IsWell (task_set_add_promise kj id promise_id)
  unfolding task_set_add_promise
  task_set_add_promise-IsWell id promise_id =
      with_task_set-IsWell id _ (move_task-IsWell id promise_id)

  call-IsWell : (c : Call Promise) (s : Runtime Promise) → IsWell s → IsWell (call c s)
  unfolding call task_set_new
  call-IsWell (add p) s h = (add_promise-IsWell kj p).after s h
  call-IsWell (all_start ids) s h = (promise_all_start-IsWell kj ids).after s h
  call-IsWell (race_start ids) s h = (promise_race_start-IsWell kj ids).after s h
  call-IsWell (then_start i j) s h = (promise_then_start-IsWell kj i j).after s h
  call-IsWell (catch_start i j) s h = (promise_catch_start-IsWell kj i j).after s h
  call-IsWell (await id) s h = (await_promise-IsWell kj id).after s h
  call-IsWell (cancel id) s h = (cancel_promise-IsWell kj id).after s h
  call-IsWell (release id) s h = (release_promise-IsWell kj id).after s h
  call-IsWell new_task_set s h = (add_task_set-IsWell (empty_task_set kj)).after s h
  call-IsWell (release_task_set id) s h = (task_set_release-IsWell id).after s h
  call-IsWell (clear_task_set id) s h = (task_set_clear-IsWell id).after s h
  call-IsWell (ask_empty id) s h = (task_set_is_empty-IsWell id).after s h
  call-IsWell (on_empty id) s h = (task_set_on_empty_start-IsWell id).after s h
  call-IsWell (ask_errors id) s h = (task_set_error_count-IsWell id).after s h
  call-IsWell (take_error id) s h = (task_set_take_last_error-IsWell id).after s h
  call-IsWell (add_task id promise_id) s h = (task_set_add_promise-IsWell id promise_id).after s h

  run_from : (calls : List (Call Promise)) (s : Runtime Promise) → IsWell s → IsWell (run calls s)
  unfolding run
  run_from [] s h = h
  run_from (c ∷ calls) s h = run_from calls (call c s) (call-IsWell c s h)

  -- After any sequence of operations on a new runtime, however each of them ended, an id is used for
  -- one promise at most, no live id counts as consumed, and the id counter is below 2 ^ 32.
  pub run-IsWell : (calls : List (Call Promise)) → IsWell (run calls fresh_runtime)
  unfolding elem contains
  run-IsWell calls =
      run_from calls fresh_runtime
        (record { counter = omega arith; distinct = tt; apart = λ i h. refl })
