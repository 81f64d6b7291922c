-- ===== src/Completions/Deferred.antt =====
-- ffi/rpc_bridge_common.cpp, DeferredLeanTaskState: when the Lean tasks behind a call are cancelled. A
-- request is one step here; a completion that is stored between its test and its exchange counts as
-- one behind it.
use lean_capnproto.Prelude.{
  ℕ, ◌+◌, Bool, true, false, not, ◌||◌, List, [], ◌∷◌, ◌++◌, ◌==◌, if◌then◌else◌,
}

-- A task object is its address; `cancels` are the calls of `lean_io_cancel_core` so far.
pub record DeferredLeanTaskState : Type 0 where
  pub wait_task : ℕ
  pub cancel_task : ℕ
  pub allow_cancellation : Bool
  pub completed : Bool
  pub cancellation_requested : Bool
  pub cancels : List ℕ

pub new_deferred : ℕ → ℕ → Bool → DeferredLeanTaskState
new_deferred wait cancel allow = record {
  wait_task = wait;
  cancel_task = cancel;
  allow_cancellation = allow;
  completed = false;
  cancellation_requested = false;
  cancels = [];
}

-- The two pointers may be one.
abbrev tasks_to_cancel : ℕ → ℕ → List ℕ
tasks_to_cancel wait cancel = if wait == cancel then cancel ∷ [] else cancel ∷ wait ∷ []

request_cancellation : DeferredLeanTaskState → Bool × DeferredLeanTaskState
request_cancellation s =
    if not s.allow_cancellation || s.completed
    then (false, s)
    else if s.cancellation_requested
    then (false, s)
    else (
      true,
      record s {
        cancellation_requested = true;
        cancels = s.cancels ++ tasks_to_cancel s.wait_task s.cancel_task;
      },
    )

-- What happens to the state: a request, also the one that its destructor makes, or that the task is
-- completed.
pub data Event : Type 0 where
  request complete : Event

happen : Event → DeferredLeanTaskState → DeferredLeanTaskState
unfolding request_cancellation
happen request s = (request_cancellation s).1
happen complete s = record s { completed = true }

pub happen_all : List Event → DeferredLeanTaskState → DeferredLeanTaskState
unfolding happen
happen_all [] s = s
happen_all (e ∷ events) s = happen_all events (happen e s)

-- Whether a request comes before the task is completed.
abbrev pub requested_in_time : List Event → Bool
requested_in_time [] = false
requested_in_time (request ∷ events) = true
requested_in_time (complete ∷ events) = false

-- How often a task is among those that were cancelled.
abbrev pub times : ℕ → List ℕ → ℕ
times t [] = 0
times t (u ∷ l) = (if u == t then 1 else 0) + times t l
