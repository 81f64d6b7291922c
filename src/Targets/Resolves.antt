-- ===== src/Targets/Resolves.antt =====
-- ffi/rpc_bridge_runtime.cpp, class RuntimeLoop: promise capabilities. A fulfiller is called once, with
-- a target or an exception; while resolves are held, a request to fulfill waits in a queue.
pub mod Held
pub mod Flush
pub mod Stops
pub mod Settled
pub mod Created
pub mod Room
use lean_capnproto.Prelude.{
  ℕ, ◌+◌, ◌%◌, ◌^◌, Bool, true, false, Option, none, some, List, [], ◌∷◌, ◌++◌, ◌==◌, if◌then◌else◌,
  length, c_str, codes,
}
use lean_capnproto.Prelude.Exec.{Exec, Outcome, returns, throws, loops, pure, throw, ◌>>=◌, ◌>>◌}
use lean_capnproto.Prelude.Table.{Table, find, contains, erase, assign, elem, insert, remove}
use lean_capnproto.Prelude.Alloc.{allocate}
use lean_capnproto.Targets.{
  ExceptionType, failed, overloaded, disconnected, unimplemented, RemoteException, Settlement,
  fulfilled, rejected, PendingPromiseCapability, HeldResolve, Rpc, State, TargetError,
  unknown_target, unknown_fulfiller, null_target, own_target, held_already, Op, add_target,
}

decode_remote_exception_type : ℕ → ExceptionType
decode_remote_exception_type tag =
    if tag == 0
    then failed
    else if tag == 1
    then overloaded
    else if tag == 2
    then disconnected
    else if tag == 3
    then unimplemented
    else failed

-- The exception that `promiseCapabilityReject` makes; the message ends at a NUL.
pub make_exception : ℕ → List ℕ → List ℕ → RemoteException
unfolding decode_remote_exception_type
make_exception tag message detail = record {
  kind = decode_remote_exception_type tag;
  description = c_str message;
  detail = if length detail == 0 then none else some detail;
}

pub released_exception : RemoteException
released_exception = record {
  kind = disconnected;
  description = codes "promise capability fulfiller released";
  detail = none;
}

pub take_held : ℕ → List HeldResolve → List HeldResolve
take_held id [] = []
take_held id (r ∷ held) = if r.fulfiller_id == id then held else r ∷ take_held id held

module _ (rpc : Rpc) where
  open rpc use {Client}

  unfoldable pub add_promise_capability_fulfiller : PendingPromiseCapability → Op rpc ℕ
  add_promise_capability_fulfiller p s =
      elim (allocate (2 ^ 32) (λ i. contains i s.fulfillers) (length s.fulfillers + 1)
        s.next_fulfiller_id) [
          | none ↦ (loops, s)
          | some (id, next) ↦ (
            returns id,
            record s { fulfillers = assign id p s.fulfillers; next_fulfiller_id = next },
          )
        ]

  -- The client and the fulfiller are those that KJ makes.
  pub new_promise_capability : Client → ℕ → Op rpc (ℕ × ℕ)
  new_promise_capability client fulfiller = do
    target ← add_target rpc client
    id ←
        add_promise_capability_fulfiller (record { fulfiller = fulfiller; promise_target = target })
    pure (target, id)

  -- A fulfiller is called and leaves the table.
  unfoldable pub settle : ℕ → PendingPromiseCapability → Settlement Client → State rpc → State rpc
  settle id p outcome s = record s {
    fulfillers = erase id s.fulfillers;
    settlements = s.settlements ++ ((p.fulfiller, outcome) ∷ []);
  }

  -- The checks that both forms of fulfilling make, in order, and the capability of the target.
  unfoldable pub check_fulfill :
      ℕ → ℕ → State rpc → Outcome TargetError (PendingPromiseCapability × Client)
  check_fulfill id target s = elim (find id s.fulfillers) [
    | none ↦ throws (unknown_fulfiller id)
    | some p ↦
        if target == 0
        then throws null_target
        else if target == p.promise_target
        then throws own_target
        else elim (find target s.targets) [
          | none ↦ throws (unknown_target target)
          | some cap ↦ returns (p, cap)
        ]
  ]

  pub promise_capability_fulfill_now : ℕ → ℕ → Op rpc (Unit {0})
  unfolding check_fulfill settle
  promise_capability_fulfill_now id target s = elim (check_fulfill id target s) [
    | throws e ↦ (throws e, s)
    | loops ↦ (loops, s)
    | returns (p, cap) ↦ (returns tt, settle id p (fulfilled cap) s)
  ]

  pub hold_resolve : ℕ → ℕ → Op rpc (Unit {0})
  unfolding check_fulfill
  hold_resolve id target s = elim (check_fulfill id target s) [
    | throws e ↦ (throws e, s)
    | loops ↦ (loops, s)
    | returns _ ↦ (
      returns tt,
      record s {
        held_resolves = s.held_resolves ++ (record { fulfiller_id = id; target = target } ∷ []);
        held_ids = insert id s.held_ids;
      },
    )
  ]

  pub promise_capability_fulfill : ℕ → ℕ → Op rpc (Unit {0})
  unfolding hold_resolve promise_capability_fulfill_now
  promise_capability_fulfill id target s =
      if elem id s.held_ids
      then (throws held_already, s)
      else if s.hold_resolves
      then hold_resolve id target s
      else promise_capability_fulfill_now id target s

  pub drop_held_promise_capability_resolve : ℕ → State rpc → State rpc
  unfolding take_held
  drop_held_promise_capability_resolve id s =
      if elem id s.held_ids
      then record s {
        held_ids = remove id s.held_ids;
        held_resolves = take_held id s.held_resolves;
      }
      else s

  -- The loop takes the queue's front off before it fulfills it.
  pub flush_loop : List HeldResolve → Op rpc ℕ
  unfolding promise_capability_fulfill_now
  flush_loop [] = pure 0
  flush_loop (r ∷ held) = do
    λ s.
        (returns tt, record s { held_resolves = held; held_ids = remove r.fulfiller_id s.held_ids })
    promise_capability_fulfill_now r.fulfiller_id r.target
    flushed ← flush_loop held
    pure ((flushed + 1) % 2 ^ 64)

  pub flush_held_promise_capability_resolves : Op rpc ℕ
  unfolding flush_loop
  flush_held_promise_capability_resolves s = flush_loop s.held_resolves s

  unfoldable pub set_resolve_hold_enabled : Bool → Op rpc (Unit {0})
  set_resolve_hold_enabled enabled s = (returns tt, record s { hold_resolves = enabled })

  pub held_resolve_count : State rpc → ℕ
  held_resolve_count s = length s.held_resolves % 2 ^ 64

  pub reject_found : ℕ → RemoteException → Op rpc (Unit {0})
  unfolding settle
  reject_found id ex s = elim (find id s.fulfillers) [
    | none ↦ (throws (unknown_fulfiller id), s)
    | some p ↦ (returns tt, settle id p (rejected ex) s)
  ]

  pub promise_capability_reject : ℕ → ℕ → List ℕ → List ℕ → Op rpc (Unit {0})
  unfolding drop_held_promise_capability_resolve reject_found make_exception
  promise_capability_reject id tag message detail s =
      reject_found id (make_exception tag message detail)
        (drop_held_promise_capability_resolve id s)

  pub release_found : ℕ → Op rpc (Unit {0})
  unfolding settle
  release_found id s = elim (find id s.fulfillers) [
    | none ↦ (returns tt, s)
    | some p ↦ (returns tt, settle id p (rejected released_exception) s)
  ]

  pub promise_capability_release : ℕ → Op rpc (Unit {0})
  unfolding drop_held_promise_capability_resolve release_found
  promise_capability_release id s = release_found id (drop_held_promise_capability_resolve id s)
