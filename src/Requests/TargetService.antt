-- ===== src/Requests/TargetService.antt =====
-- ffi/rpc_bridge_runtime.cpp: the requests for targets, promise capabilities and held resolves, as the
-- worker handles them. An exception is answered with its text.
use lean_capnproto.Prelude.{ℕ, Bool, false, Option, none, some, List, []}
use lean_capnproto.Prelude.Exec.{Outcome, returns, throws, loops}
use lean_capnproto.Prelude.Result.{Result, ok, err}
use lean_capnproto.Completions.{Text}
use lean_capnproto.Targets.{
  Rpc, State, TargetError, Op, retain_target, release_target, release_targets,
}
use lean_capnproto.Targets.Resolves.{
  new_promise_capability, promise_capability_fulfill, promise_capability_reject,
  promise_capability_release, set_resolve_hold_enabled, flush_held_promise_capability_resolves,
  held_resolve_count,
}
use lean_capnproto.Requests.{Service, Loop, enqueue_with_completion}

-- What the different completions are given.
pub data Reply : Type 0 where
  unit_reply : Reply
  register_reply uint64_reply : ℕ → Reply
  pair_reply : ℕ → ℕ → Reply

-- The client and the fulfiller of a new promise capability are those that KJ makes for it.
pub data TargetRequest (C : Type 0) : Type 0 where
  queued_release_target queued_retain_target : ℕ → TargetRequest C
  queued_release_targets : List ℕ → TargetRequest C
  queued_new_promise_capability : C → ℕ → TargetRequest C
  queued_fulfill : ℕ → ℕ → TargetRequest C
  queued_reject : ℕ → ℕ → List ℕ → List ℕ → TargetRequest C
  queued_release_fulfiller : ℕ → TargetRequest C
  queued_set_resolve_hold : Bool → TargetRequest C
  queued_flush_held_resolves queued_held_resolve_count : TargetRequest C

-- The `try` around each handler.
unfoldable pub answer_with :
    {E A : Type 0} → (E → Text) → (A → Reply) → Outcome E A → Option (Result Text Reply)
answer_with what reply (returns a) = some (ok (reply a))
answer_with what reply (throws e) = some (err (what e))
answer_with what reply loops = none

module _ (rpc : Rpc) (what : TargetError → Text) where
  open rpc use {Client}

  unfoldable pub try_handler :
      {A : Type 0} → (A → Reply) → Op rpc A → State rpc → Option (Result Text Reply) × State rpc
  unfolding answer_with
  try_handler reply m s = (answer_with what reply (m s).0, (m s).1)

  unfoldable pub handle : TargetRequest Client → State rpc → Option (Result Text Reply) × State rpc
  unfolding try_handler
  handle (queued_release_target target) = try_handler (λ _. unit_reply) (release_target rpc target)
  handle (queued_release_targets targets) =
      try_handler (λ _. unit_reply) (release_targets rpc targets)
  handle (queued_retain_target target) = try_handler register_reply (retain_target rpc target)
  handle (queued_new_promise_capability client fulfiller) =
      try_handler (λ (p : ℕ × ℕ). pair_reply p.0 p.1) (new_promise_capability rpc client fulfiller)
  handle (queued_fulfill id target) =
      try_handler (λ _. unit_reply) (promise_capability_fulfill rpc id target)
  handle (queued_reject id tag message detail) =
      try_handler (λ _. unit_reply) (promise_capability_reject rpc id tag message detail)
  handle (queued_release_fulfiller id) =
      try_handler (λ _. unit_reply) (promise_capability_release rpc id)
  handle (queued_set_resolve_hold enabled) =
      try_handler (λ _. unit_reply) (set_resolve_hold_enabled rpc enabled)
  handle queued_flush_held_resolves =
      try_handler uint64_reply (flush_held_promise_capability_resolves rpc)
  handle queued_held_resolve_count =
      try_handler uint64_reply (λ s. (returns (held_resolve_count rpc s), s))

  -- The tables that the worker empties when it ends.
  unfoldable pub clear_tables : State rpc → State rpc
  clear_tables s = record s {
    targets = [];
    loopback = record { peers = []; owner_by_target = []; owner_ref_count = [] };
    network = record { peers = []; owner_by_target = []; owner_ref_count = [] };
    fulfillers = [];
    held_resolves = [];
    held_ids = [];
    hold_resolves = false;
  }

  abbrev pub target_service : Service
  target_service = record {
    State = State rpc;
    Request = TargetRequest Client;
    Reply = Reply;
    handle = handle;
    clear = clear_tables;
  }

  -- The ten functions that other threads call.
  abbrev Enqueue : Type 0
  Enqueue = Loop target_service → ℕ × Loop target_service

  abbrev enqueue_release_target : ℕ → Enqueue
  enqueue_release_target target =
      enqueue_with_completion target_service (queued_release_target target)

  abbrev enqueue_release_targets : List ℕ → Enqueue
  enqueue_release_targets targets =
      enqueue_with_completion target_service (queued_release_targets targets)

  abbrev enqueue_retain_target : ℕ → Enqueue
  enqueue_retain_target target =
      enqueue_with_completion target_service (queued_retain_target target)

  abbrev enqueue_new_promise_capability : Client → ℕ → Enqueue
  enqueue_new_promise_capability client fulfiller =
      enqueue_with_completion target_service (queued_new_promise_capability client fulfiller)

  abbrev enqueue_promise_capability_fulfill : ℕ → ℕ → Enqueue
  enqueue_promise_capability_fulfill fulfiller_id target =
      enqueue_with_completion target_service (queued_fulfill fulfiller_id target)

  abbrev enqueue_promise_capability_reject : ℕ → ℕ → List ℕ → List ℕ → Enqueue
  enqueue_promise_capability_reject fulfiller_id tag message detail =
      enqueue_with_completion target_service (queued_reject fulfiller_id tag message detail)

  abbrev enqueue_promise_capability_release : ℕ → Enqueue
  enqueue_promise_capability_release fulfiller_id =
      enqueue_with_completion target_service (queued_release_fulfiller fulfiller_id)

  abbrev enqueue_ordering_set_resolve_hold : Bool → Enqueue
  enqueue_ordering_set_resolve_hold enabled =
      enqueue_with_completion target_service (queued_set_resolve_hold enabled)

  abbrev enqueue_ordering_flush_held_resolves : Enqueue
  enqueue_ordering_flush_held_resolves =
      enqueue_with_completion target_service queued_flush_held_resolves

  abbrev enqueue_ordering_held_resolve_count : Enqueue
  enqueue_ordering_held_resolve_count =
      enqueue_with_completion target_service queued_held_resolve_count
