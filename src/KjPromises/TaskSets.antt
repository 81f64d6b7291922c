-- ===== src/KjPromises/TaskSets.antt =====
-- ffi/kj_async_bridge.cpp, the task sets of `KjAsyncRuntimeLoop`.
use lean_capnproto.Prelude.{
  ℕ, ◌+◌, ◌%◌, ◌^◌, Bool, Option, none, some, List, [], ◌∷◌, ◌++◌, ◌==◌, if◌then◌else◌, length,
}
use lean_capnproto.Prelude.Exec.{returns, throws, loops}
use lean_capnproto.Prelude.Table.{find, contains, erase, assign}
use lean_capnproto.Prelude.Alloc.{allocate}
use lean_capnproto.KjPromises.{
  Kj, TaskSet, Runtime, unknown_promise, unknown_task_set, Op, retire, add_promise,
}

-- ErrorHandler::taskFailed, with the description of the exception
pub task_failed : {P : Type 0} → List ℕ → TaskSet P → TaskSet P
task_failed description t = record t {
  error_count = (t.error_count + 1) % 2 ^ 32;
  last_error = description;
}

module _ (kj : Kj) where
  open kj use {Promise, is_empty, on_empty}

  abbrev pub empty_task_set : TaskSet Promise
  empty_task_set = record { tasks = []; error_count = 0; last_error = [] }

  unfoldable pub add_task_set : TaskSet Promise → Op kj ℕ
  add_task_set t s =
      elim (allocate (2 ^ 32) (λ i. contains i s.task_sets) (length s.task_sets + 1)
        s.next_task_set_id) [
          | none ↦ (loops, s)
          | some (id, next) ↦ (
            returns id,
            record s { task_sets = assign id t s.task_sets; next_task_set_id = next },
          )
        ]

  unfoldable pub task_set_new : Op kj ℕ
  unfolding add_task_set
  task_set_new = add_task_set empty_task_set

  unfoldable pub task_set_release : ℕ → Op kj (Unit {0})
  task_set_release id s =
      if contains id s.task_sets
      then (returns tt, record s { task_sets = erase id s.task_sets })
      else (throws (unknown_task_set id), s)

  -- The lookup at the head of each operation on a task set.
  unfoldable pub with_task_set : {A : Type 0} → ℕ → (TaskSet Promise → Op kj A) → Op kj A
  with_task_set id f s = elim (find id s.task_sets) [
    | none ↦ (throws (unknown_task_set id), s)
    | some t ↦ f t s
  ]

  unfoldable pub put_task_set : ℕ → TaskSet Promise → Runtime Promise → Runtime Promise
  put_task_set id t s = record s { task_sets = assign id t s.task_sets }

  -- The promise moves into the task set; one that is used up counts as unknown here.
  unfoldable pub move_task : ℕ → ℕ → TaskSet Promise → Op kj (Unit {0})
  unfolding put_task_set
  move_task id promise_id t s = elim (find promise_id s.promises) [
    | none ↦ (throws (unknown_promise promise_id), s)
    | some p ↦ (
      returns tt,
      put_task_set id (record t { tasks = t.tasks ++ (p ∷ []) }) (retire kj promise_id s),
    )
  ]

  unfoldable pub task_set_add_promise : ℕ → ℕ → Op kj (Unit {0})
  unfolding with_task_set move_task
  task_set_add_promise id promise_id = with_task_set id (move_task id promise_id)

  unfoldable pub task_set_clear : ℕ → Op kj (Unit {0})
  unfolding with_task_set put_task_set
  task_set_clear id =
      with_task_set id (λ t s. (returns tt, put_task_set id (record t { tasks = [] }) s))

  unfoldable pub task_set_is_empty : ℕ → Op kj Bool
  unfolding with_task_set
  task_set_is_empty id = with_task_set id (λ t s. (returns (is_empty t.tasks), s))

  unfoldable pub task_set_on_empty_start : ℕ → Op kj ℕ
  unfolding with_task_set
  task_set_on_empty_start id = with_task_set id (λ t. add_promise kj (on_empty t.tasks))

  unfoldable pub task_set_error_count : ℕ → Op kj ℕ
  unfolding with_task_set
  task_set_error_count id = with_task_set id (λ t s. (returns t.error_count, s))

  unfoldable pub task_set_take_last_error : ℕ → Op kj (Option (List ℕ))
  unfolding with_task_set put_task_set
  task_set_take_last_error id = with_task_set id λ t s.
      if length t.last_error == 0
      then (returns none, s)
      else (returns (some t.last_error), put_task_set id (record t { last_error = [] }) s)
