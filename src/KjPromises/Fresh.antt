-- ===== src/KjPromises/Fresh.antt =====
-- ffi/kj_async_bridge.cpp, `addPromise`: with a free id left it returns, and the id is a new one.
use lean_capnproto.Prelude.{ℕ, ◌+◌, ◌^◌, ◌<◌, ◌≡◌, false, some, arith, length}
use lean_capnproto.Prelude.Exec.{returns}
use lean_capnproto.Prelude.Table.{contains, assign, remove, length-erase_le}
use lean_capnproto.Prelude.Alloc.{allocate, allocate-contains, allocate-free, allocate-lt}
use lean_capnproto.KjPromises.{Kj, Runtime, add_promise, retire}

pub record HasRoom {P : Type 0} (s : Runtime P) : Type 0 where
  pub counter : s.next_promise_id < 2 ^ 32
  pub room : length s.promises < 2 ^ 32

module _ (kj : Kj) where
  open kj use {Promise}

  -- What `add_promise` makes of the state, the id and the counter behind it being `r`.
  abbrev pub added : Promise → Runtime Promise → ℕ × ℕ → Runtime Promise
  added p s r = record s {
    promises = assign r.0 p s.promises;
    next_promise_id = r.1;
    retired_promise_ids = remove r.0 s.retired_promise_ids;
  }

  abbrev pub Added : Promise → Runtime Promise → ℕ × ℕ → Type 0
  Added p s r =
      (add_promise kj p s ≡ (returns r.0, added p s r))
      × (contains r.0 s.promises ≡ false)
      × (r.0 < 2 ^ 32)

  Added-of_found :
      (p : Promise) (s : Runtime Promise) (r : ℕ × ℕ)
      → HasRoom s
      → allocate (2 ^ 32) (λ i. contains i s.promises) (length s.promises + 1) s.next_promise_id
        ≡ some r
      → Added p s r
  unfolding add_promise
  Added-of_found p s (id, next) h e =
      let busy = λ (i : ℕ). contains i s.promises in
      let fuel = length s.promises + 1 in
      (
        rw (e, add_promise),
        allocate-free (2 ^ 32) busy fuel s.next_promise_id id next e,
        (allocate-lt (2 ^ 32) busy fuel s.next_promise_id id next h.counter e).0,
      )

  pub add_promise_fresh :
      (p : Promise) (s : Runtime Promise) → HasRoom s → (r : ℕ × ℕ) × Added p s r
  add_promise_fresh p s h =
      let (r, e) = allocate-contains (2 ^ 32) s.promises s.next_promise_id h.room h.counter in
      (r, Added-of_found p s r h e)

  pub retire-HasRoom : (id : ℕ) (s : Runtime Promise) → HasRoom s → HasRoom (retire kj id s)
  unfolding retire
  retire-HasRoom id s h = record {
    counter = h.counter;
    room = omega (arith, h.room, length-erase_le id s.promises);
  }
