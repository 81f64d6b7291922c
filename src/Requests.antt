-- ===== src/Requests.antt =====
-- ffi/rpc_bridge_runtime.cpp, class RuntimeLoop: the queue between the threads of Lean and the worker
-- thread. A request is put at the end together with a completion; the worker takes requests from the
-- front, handles each of them and writes its completion. Each step holds the queue's mutex or runs on
-- the worker alone, so that an execution is a sequence of events.
pub mod Served
pub mod Answered
pub mod TargetService
pub mod TargetAnswers
use lean_capnproto.Prelude.{
  ℕ, ◌+◌, Bool, true, false, Option, none, some, List, [], ◌∷◌, ◌++◌, codes, if◌then◌else◌,
}
use lean_capnproto.Prelude.Table.{Table, assign}
use lean_capnproto.Prelude.Result.{Result, ok, err}
use lean_capnproto.Completions.{Text, Completion, succeed, fail}

-- What the worker does with a request: a result or the text of an exception, or nothing if the handler
-- never returns. `clear` is what the worker does to its tables when it ends.
pub record Service : Type 1 where
  pub State : Type 0
  pub Request : Type 0
  pub Reply : Type 0
  pub handle : Request → State → Option (Result Text Reply) × State
  pub clear : State → State

pub data Worker : Type 0 where
  running stuck ended : Worker

abbrev pub shutting_down : Text
shutting_down = codes "Capnp.Rpc runtime is shutting down"

abbrev pub shut_down : Text
shut_down = codes "Capnp.Rpc runtime shut down"

module _ (service : Service) where
  open service use {State, Request, Reply, handle, clear}

  abbrev pub Answer : Type 0
  Answer = Completion (Option Reply)

  -- A completion is known by its number.
  pub record Loop : Type 0 where
    pub queue : List (ℕ × Request)
    pub stopping : Bool
    pub worker : Worker
    pub completions : Table Answer
    pub next_completion : ℕ
    pub state : State

  -- `std::make_shared<...Completion>()`
  abbrev pub new_answer : Answer
  new_answer = record { done = false; success = false; error = []; value = none }

  unfoldable pub settle_answer : Result Text Reply → Answer
  settle_answer (ok reply) = succeed (some reply) new_answer
  settle_answer (err message) = fail message new_answer

  -- Where the runtime stops, the new completion fails at once; else the request goes to the queue.
  unfoldable pub enqueue_checked : Bool → Request → Loop → ℕ × Loop
  unfolding settle_answer
  enqueue_checked true request l = (
    l.next_completion,
    record l {
      completions = assign l.next_completion (settle_answer (err shutting_down)) l.completions;
      next_completion = l.next_completion + 1;
    },
  )
  enqueue_checked false request l = (
    l.next_completion,
    record l {
      queue = l.queue ++ ((l.next_completion, request) ∷ []);
      completions = assign l.next_completion new_answer l.completions;
      next_completion = l.next_completion + 1;
    },
  )

  unfoldable pub enqueue_with_completion : Request → Loop → ℕ × Loop
  unfolding enqueue_checked
  enqueue_with_completion request l = enqueue_checked l.stopping request l

  unfoldable pub begin_shutdown : Loop → Loop
  begin_shutdown l = record l { stopping = true }

  -- The answer to a request is written, if its handler returns.
  unfoldable pub write_answer : ℕ → Option (Result Text Reply) × State → Loop → Loop
  unfolding settle_answer
  write_answer id (none, s) l = record l { worker = stuck; state = s }
  write_answer id (some result, s) l = record l {
    completions = assign id (settle_answer result) l.completions;
    state = s;
  }

  -- The loop over the requests that are left when the worker ends.
  unfoldable pub fail_all : Text → List (ℕ × Request) → Table Answer → Table Answer
  unfolding settle_answer
  fail_all message [] completions = completions
  fail_all message ((id, _) ∷ pending) completions =
      fail_all message pending (assign id (settle_answer (err message)) completions)

  unfoldable pub fail_pending_calls : Text → Loop → Loop
  unfolding fail_all
  fail_pending_calls message l = record l {
    queue = [];
    completions = fail_all message l.queue l.completions;
  }

  -- One round of the worker's loop; with an empty queue it ends once the runtime stops.
  -- These requests leave no task behind, so that the worker that stops finds `tasks.isEmpty()`.
  unfoldable pub work_on : List (ℕ × Request) → Bool → Loop → Loop
  unfolding write_answer fail_pending_calls
  work_on ((id, request) ∷ rest) stopping l =
      write_answer id (handle request l.state) (record l { queue = rest })
  work_on [] true l =
      fail_pending_calls shut_down (record l { worker = ended; state = clear l.state })
  work_on [] false l = l

  unfoldable pub work_as : Worker → Loop → Loop
  unfolding work_on
  work_as running l = work_on l.queue l.stopping l
  work_as stuck l = l
  work_as ended l = l

  unfoldable pub work : Loop → Loop
  unfolding work_as
  work l = work_as l.worker l

  -- An exception that no handler throws ends the worker, with the text of the exception.
  unfoldable crash : Text → Loop → Loop
  unfolding fail_pending_calls
  crash message l = fail_pending_calls message (record l { worker = ended })

  pub data Event : Type 0 where
    enqueues : Request → Event
    stops works : Event

  unfoldable pub step : Event → Loop → Loop
  unfolding enqueue_with_completion
  step (enqueues request) l = (enqueue_with_completion request l).1
  step stops l = begin_shutdown l
  step works l = work l

  unfoldable pub run : List Event → Loop → Loop
  run [] l = l
  run (e ∷ es) l = run es (step e l)

  abbrev pub fresh_loop : State → Loop
  fresh_loop s = record {
    queue = [];
    stopping = false;
    worker = running;
    completions = [];
    next_completion = 0;
    state = s;
  }
