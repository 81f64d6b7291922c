-- ===== src/Requests/Served.antt =====
-- ffi/rpc_bridge_runtime.cpp: the queue answers every request, and in the order of their arrival.
use lean_capnproto.Prelude.{
  ℕ, zero, suc, ◌≡◌, refl, sym, subst, ap, arith, Bool, Option, none, some, List, [], ◌∷◌, length,
}
use lean_capnproto.Prelude.Table.{Table, assign}
use lean_capnproto.Prelude.Result.{Result}
use lean_capnproto.Completions.{Text}
use lean_capnproto.Requests.{
  Service, running, Loop, Answer, settle_answer, write_answer, work_on, work_as, work,
}

module _ (service : Service) where
  open service use {State, Request, Reply, handle}

  -- What the handlers have room for: with room for one more request, a handler returns, and there is
  -- room for one fewer afterwards.
  pub record HasRoom (Room : ℕ → State → Type 0) : Type 0 where
    pub less : (n : ℕ) (s : State) → Room (suc n) s → Room n s
    pub returns_with :
        (n : ℕ) (s : State) (r : Request)
        → Room (suc n) s
        → ((x : Result Text Reply) × ((handle r s).0 ≡ some x)) × Room n (handle r s).1

  unfoldable pub answer :
      ℕ
      → Option (Result Text Reply) × State
      → Table (Answer service)
      → State × Table (Answer service)
  answer id (none, s) t = (s, t)
  answer id (some x, s) t = (s, assign id (settle_answer service x) t)

  -- Direct calls: the handlers one after the other, and what the completions become.
  unfoldable pub serve :
      List (ℕ × Request) → State × Table (Answer service) → State × Table (Answer service)
  unfolding answer
  serve [] st = st
  serve ((id, r) ∷ rest) st = serve rest (answer id (handle r st.0) st.1)

  unfoldable pub work_times : ℕ → Loop service → Loop service
  work_times zero l = l
  work_times (suc n) l = work_times n (work service l)

  -- The queue does what direct calls would do.
  abbrev pub Serves : Loop service → Type 0
  Serves l =
      let after = work_times (length l.queue) l in
      let direct = serve l.queue (l.state, l.completions) in
      (after.queue ≡ [])
      × (after.state ≡ direct.0)
      × (after.completions ≡ direct.1)
      × (after.worker ≡ running)

  abbrev a_loop : List (ℕ × Request) → Bool → ℕ → Table (Answer service) → State → Loop service
  a_loop q stopping next t s = record {
    queue = q;
    stopping = stopping;
    worker = running;
    completions = t;
    next_completion = next;
    state = s;
  }

  -- The worker has written one answer, and goes on with the rest.
  abbrev ServesFrom : List (ℕ × Request) → Loop service → State × Table (Answer service) → Type 0
  ServesFrom rest l st =
      let after = work_times (length rest) l in
      let direct = serve rest st in
      (after.queue ≡ [])
      × (after.state ≡ direct.0)
      × (after.completions ≡ direct.1)
      × (after.worker ≡ running)

  Serves-rest :
      (id : ℕ) (rest : List (ℕ × Request)) (stopping : Bool) (next : ℕ) (t : Table (Answer service))
      → (old : State) (x : Result Text Reply) (o : Option (Result Text Reply)) (s : State)
      → o ≡ some x
      → ((t : Table (Answer service)) → Serves (a_loop rest stopping next t s))
      → ServesFrom rest
          (write_answer service id (o, s) (a_loop rest stopping next t old))
          (answer id (o, s) t)
  unfolding write_answer answer
  Serves-rest id rest stopping next t old x none s e more = absurd (ground (arith, e))
  Serves-rest id rest stopping next t old x (some y) s e more =
      more (assign id (settle_answer service y) t)

  module _ (Room : ℕ → State → Type 0) (room : HasRoom Room) where
    Serves-all :
        (q : List (ℕ × Request)) (stopping : Bool) (next : ℕ) (t : Table (Answer service))
        (s : State)
        → Room (length q) s
        → Serves (a_loop q stopping next t s)
    unfolding work_times serve work work_as work_on
    Serves-all [] stopping next t s h = (refl, refl, refl, refl)
    Serves-all ((id, r) ∷ rest) stopping next t s h =
        let ((x, e), more) = room.returns_with (length rest) s r h in
        Serves-rest id rest stopping next t s x (handle r s).0 (handle r s).1 e
          λ u. Serves-all rest stopping next u (handle r s).1 more

    -- Where the handlers have room for the requests that wait in the queue: after as many rounds as
    -- there are requests, the running worker has emptied the queue, and its tables and all completions
    -- are what direct calls of the handlers, one after the other in the order of the queue, make of
    -- them.
    pub work_times-serve :
        (l : Loop service) → l.worker ≡ running → Room (length l.queue) l.state → Serves l
    work_times-serve l busy h =
        subst Serves (ap (λ w. record l { worker = w }) (sym busy))
          (Serves-all l.queue l.stopping l.next_completion l.completions l.state h)
