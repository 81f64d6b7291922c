-- ===== src/KjPromises.antt =====
-- ffi/kj_async_bridge.cpp, the promise and task-set tables of `KjAsyncRuntimeLoop`. All of it runs on
-- the runtime's worker thread, one queued operation at a time. KJ's promises are a parameter (`Kj`);
-- a canceler that is released changes no promise.
pub mod TaskSets
pub mod Fresh
pub mod Combine
pub mod Ids
pub mod Calls
pub mod Race
use lean_capnproto.Prelude.{
  ℕ, zero, suc, ◌+◌, ◌^◌, Bool, true, false, Option, none, some, List, [], ◌∷◌, ◌==◌, if◌then◌else◌,
  length,
}
use lean_capnproto.Prelude.Exec.{Exec, Outcome, returns, throws, loops, pure, throw, ◌>>=◌, ◌>>◌}
use lean_capnproto.Prelude.Table.{Table, find, contains, erase, assign, elem, insert, remove}
use lean_capnproto.Prelude.Alloc.{allocate}

-- What the program uses of KJ's promises. `wait` says how a promise ends when it is waited for,
-- `cancel` what a promise becomes when its canceler cancels it, and the two functions of task sets
-- are over the promises that were added.
pub record Kj : Type 1 where
  pub Promise : Type 0
  pub Failure : Type 0
  pub join : List Promise → Promise
  pub exclusive_join : Promise → Promise → Promise
  pub and_then : Promise → Promise → Promise
  pub recover : Promise → Promise → Promise
  pub cancel : Promise → Promise
  pub wait : Promise → Option Failure
  pub is_empty : List Promise → Bool
  pub on_empty : List Promise → Promise

-- RuntimeTaskSet
pub record TaskSet (P : Type 0) : Type 0 where
  pub tasks : List P
  pub error_count : ℕ
  pub last_error : List ℕ

pub record Runtime (P : Type 0) : Type 0 where
  pub promises : Table P
  pub next_promise_id : ℕ
  pub retired_promise_ids : List ℕ
  pub task_sets : Table (TaskSet P)
  pub next_task_set_id : ℕ

-- The two members of the class as they are initialised.
abbrev pub fresh_runtime : {P : Type 0} → Runtime P
fresh_runtime = record {
  promises = [];
  next_promise_id = 1;
  retired_promise_ids = [];
  task_sets = [];
  next_task_set_id = 1;
}

pub data KjError (F : Type 0) : Type 0 where
  consumed_promise unknown_promise unknown_task_set : ℕ → KjError F
  no_promises : KjError F
  failed : F → KjError F

module _ (kj : Kj) where
  open kj use {Promise, Failure, join, exclusive_join, and_then, recover, cancel, wait}

  abbrev pub Op : Type 0 → Type 0
  Op A = Exec (Runtime Promise) (KjError Failure) A

  unfoldable pub add_promise : Promise → Op ℕ
  add_promise p s =
      elim (allocate (2 ^ 32) (λ i. contains i s.promises) (length s.promises + 1)
        s.next_promise_id) [
          | none ↦ (loops, s)
          | some (id, next) ↦ (
            returns id,
            record s {
              promises = assign id p s.promises;
              next_promise_id = next;
              retired_promise_ids = remove id s.retired_promise_ids;
            },
          )
        ]

  -- The id's promise leaves the table for good.
  unfoldable pub retire : ℕ → Runtime Promise → Runtime Promise
  retire id s = record s {
    promises = erase id s.promises;
    retired_promise_ids = insert id s.retired_promise_ids;
  }

  -- The lookup at the head of each combinator, which moves the promise out.
  unfoldable pub take_promise : ℕ → Op Promise
  unfolding retire
  take_promise id s = elim (find id s.promises) [
    | none ↦
        if elem id s.retired_promise_ids
        then (throws (consumed_promise id), s)
        else (throws (unknown_promise id), s)
    | some p ↦ (returns p, retire id s)
  ]

  -- The loop of `promiseAllStart`.
  pub take_all : List ℕ → Op (List Promise)
  take_all [] = pure []
  take_all (id ∷ ids) = do p ← take_promise id; ps ← take_all ids; pure (p ∷ ps)

  pub promise_all_start : List ℕ → Op ℕ
  promise_all_start ids = do ps ← take_all ids; add_promise (join ps)

  -- The loop of `promiseRaceStart`, from the second id on.
  pub race_loop : Promise → List ℕ → Op Promise
  race_loop raced [] = pure raced
  race_loop raced (id ∷ ids) = do p ← take_promise id; race_loop (exclusive_join raced p) ids

  pub promise_race_start : List ℕ → Op ℕ
  promise_race_start [] = throw no_promises
  promise_race_start (id ∷ ids) = do
    first ← take_promise id
    raced ← race_loop first ids
    add_promise raced

  pub promise_then_start : ℕ → ℕ → Op ℕ
  promise_then_start first_id second_id = do
    first ← take_promise first_id
    second ← take_promise second_id
    add_promise (and_then first second)

  pub promise_catch_start : ℕ → ℕ → Op ℕ
  promise_catch_start id fallback_id = do
    first ← take_promise id
    fallback ← take_promise fallback_id
    add_promise (recover first fallback)

  -- Where an id is looked up that may have been used up: nothing to do then.
  pub skip_retired : ℕ → Op (Unit {0})
  skip_retired id s =
      if elem id s.retired_promise_ids then (returns tt, s) else (throws (unknown_promise id), s)

  -- `wait` returns, or throws what the promise failed with.
  pub wait_for : Promise → Op (Unit {0})
  wait_for p s = elim (wait p) [ none ↦ (returns tt, s) | some f ↦ (throws (failed f), s) ]

  pub await_promise : ℕ → Op (Unit {0})
  unfolding skip_retired wait_for retire
  await_promise id s = elim (find id s.promises) [
    | none ↦ skip_retired id s
    | some p ↦ wait_for p (retire id s)
  ]

  pub cancel_promise : ℕ → Op (Unit {0})
  unfolding skip_retired
  cancel_promise id s = elim (find id s.promises) [
    | none ↦ skip_retired id s
    | some p ↦ (returns tt, record s { promises = assign id (cancel p) s.promises })
  ]

  pub release_promise : ℕ → Op (Unit {0})
  unfolding skip_retired retire
  release_promise id s = elim (find id s.promises) [
    | none ↦ skip_retired id s
    | some p ↦ (returns tt, retire id s)
  ]
