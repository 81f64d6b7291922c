-- ===== src/Requests/Answered.antt =====
-- ffi/rpc_bridge_runtime.cpp: no request is left without an answer.
use lean_capnproto.Prelude.{
  ℕ, zero, suc, ◌+◌, ◌<◌, ◌≡◌, refl, sym, subst, ap, ◌∙◌, arith, Bool, true, false, ◌||◌, Option,
  none, some, List, [], ◌∷◌, ◌++◌, inl, inr, if◌then◌else◌, ◌==◌, length, length-append, Bool-cases,
}
use lean_capnproto.Prelude.Table.{Table, find, assign, find-assign, elem}
use lean_capnproto.Prelude.Result.{Result, ok, err}
use lean_capnproto.Completions.{Text, succeed, fail}
use lean_capnproto.Requests.{
  Service, Worker, running, stuck, ended, Loop, Answer, new_answer, settle_answer, enqueue_checked,
  enqueue_with_completion, begin_shutdown, write_answer, fail_all, fail_pending_calls, work_on,
  work_as, work, Event, enqueues, stops, works, step, run, fresh_loop, shutting_down,
}
use lean_capnproto.Requests.Served.{HasRoom, work_times, work_times-serve}

module _ (service : Service) where
  open service use {State, Request, Reply, handle, clear}

  abbrev pub ids : List (ℕ × Request) → List ℕ
  ids [] = []
  ids ((id, _) ∷ q) = id ∷ ids q

  unfoldable pub is_done : ℕ → Table (Answer service) → Bool
  is_done i t = elim (find i t) [ none ↦ false | some c ↦ c.done ]

  is_done-assign :
      (i j : ℕ) (c : Answer service) (t : Table (Answer service))
      → is_done j (assign i c t) ≡ (if i == j then c.done else is_done j t)
  unfolding is_done
  is_done-assign i j c t = ground (arith, find-assign i j c t)

  settle_done : (x : Result Text Reply) → (settle_answer service x).done ≡ true
  unfolding settle_answer succeed fail
  settle_done (ok reply) = refl
  settle_done (err message) = refl

  -- A completion that is not done belongs to a request that waits.
  abbrev pub Waits : List (ℕ × Request) → Table (Answer service) → ℕ → Type 0
  Waits q t next = (i : ℕ) → i < next → is_done i t ≡ false → elem i (ids q) ≡ true

  elem-snoc :
      (i id : ℕ) (r : Request) (q : List (ℕ × Request))
      → elem i (ids (q ++ ((id, r) ∷ []))) ≡ (elem i (ids q) || (id == i))
  unfolding elem
  elem-snoc i id r [] = ground arith
  elem-snoc i id r ((j, _) ∷ q) = ground (arith, elem-snoc i id r q)

  answered-Waits :
      (id : ℕ) (r : Request) (q : List (ℕ × Request)) (x : Result Text Reply)
      → (t : Table (Answer service)) (next : ℕ) → Waits ((id, r) ∷ q) t next
      → Waits q (assign id (settle_answer service x) t) next
  unfolding elem
  answered-Waits id r q x t next h i lt e =
      ground (arith, is_done-assign id i (settle_answer service x) t, settle_done x, h i lt)

  fail_all-Waits :
      (message : Text) (q : List (ℕ × Request)) (t : Table (Answer service)) (next : ℕ)
      → Waits q t next
      → Waits [] (fail_all service message q t) next
  unfolding fail_all
  fail_all-Waits message [] t next h = h
  fail_all-Waits message ((id, r) ∷ q) t next h =
      fail_all-Waits message q (assign id (settle_answer service (err message)) t) next
        (answered-Waits id r q (err message) t next h)

  queued-Waits :
      (r : Request) (q : List (ℕ × Request)) (t : Table (Answer service)) (next : ℕ)
      → Waits q t next
      → Waits (q ++ ((next, r) ∷ [])) (assign next (new_answer service) t) (next + 1)
  queued-Waits r q t next h i lt e =
      ground (arith, is_done-assign next i (new_answer service) t, elem-snoc i next r q, h i)

  refused-Waits :
      (q : List (ℕ × Request)) (x : Result Text Reply) (t : Table (Answer service)) (next : ℕ)
      → Waits q t next
      → Waits q (assign next (settle_answer service x) t) (next + 1)
  refused-Waits q x t next h i lt e =
      ground (arith, is_done-assign next i (settle_answer service x) t, settle_done x, h i)

  module _ (Room : ℕ → State → Type 0) (room : HasRoom service Room) where
    -- The worker is not stuck; while it runs there is room for what waits and `k` more, and when it has
    -- ended nothing waits and nothing will.
    abbrev Healthy : Worker → ℕ → List (ℕ × Request) → Bool → State → Type 0
    Healthy running k q stopping s = Room (k + length q) s
    Healthy stuck k q stopping s = false ≡ true
    Healthy ended k q stopping s = (q ≡ []) × (stopping ≡ true)

    record IsLive (k : ℕ) (l : Loop service) : Type 0 where
      healthy : Healthy l.worker k l.queue l.stopping l.state
      waits : Waits l.queue l.completions l.next_completion

    abbrev loop_of :
        Worker → List (ℕ × Request) → Bool → Table (Answer service) → ℕ → State → Loop service
    loop_of worker q stopping t next s = record {
      queue = q;
      stopping = stopping;
      worker = worker;
      completions = t;
      next_completion = next;
      state = s;
    }

    sum_suc : (k n : ℕ) → suc k + n ≡ suc (k + n)
    sum_suc k n = omega arith

    length-queued :
        (k : ℕ) (r : Request) (q : List (ℕ × Request)) (next : ℕ)
        → suc k + length q ≡ k + length (q ++ ((next, r) ∷ []))
    length-queued k r q next = omega (arith, length-append q ((next, r) ∷ []))

    enqueue_checked-IsLive :
        (r : Request) (w : Worker) (stopping : Bool) (k : ℕ) (q : List (ℕ × Request))
        → (t : Table (Answer service)) (next : ℕ) (s : State)
        → IsLive (suc k) (loop_of w q stopping t next s)
        → IsLive k (enqueue_checked service stopping r (loop_of w q stopping t next s)).1
    unfolding enqueue_checked
    enqueue_checked-IsLive r running true k q t next s h = record {
      healthy = room.less (k + length q) s (subst (λ n. Room n s) (sum_suc k (length q)) h.healthy);
      waits = refused-Waits q (err shutting_down) t next h.waits;
    }
    enqueue_checked-IsLive r running false k q t next s h = record {
      healthy = subst (λ n. Room n s) (length-queued k r q next) h.healthy;
      waits = queued-Waits r q t next h.waits;
    }
    enqueue_checked-IsLive r stuck stopping k q t next s h = absurd (ground (arith, h.healthy))
    enqueue_checked-IsLive r ended true k q t next s h = record {
      healthy = h.healthy;
      waits = refused-Waits q (err shutting_down) t next h.waits;
    }
    enqueue_checked-IsLive r ended false k q t next s h = absurd (ground (arith, h.healthy.1))

    write_answer-IsLive :
        (id : ℕ) (r : Request) (stopping : Bool) (k : ℕ) (q : List (ℕ × Request))
        → (t : Table (Answer service)) (next : ℕ) (old s : State)
        → (x : Result Text Reply) (o : Option (Result Text Reply)) → o ≡ some x
        → Room (k + length q) s
        → Waits ((id, r) ∷ q) t next
        → IsLive k (write_answer service id (o, s) (loop_of running q stopping t next old))
    unfolding write_answer
    write_answer-IsLive id r stopping k q t next old s x none e more h = absurd (ground (arith, e))
    write_answer-IsLive id r stopping k q t next old s x (some y) e more h = record {
      healthy = more;
      waits = answered-Waits id r q y t next h;
    }

    work-IsLive :
        (w : Worker) (q : List (ℕ × Request)) (stopping : Bool) (k : ℕ)
        → (t : Table (Answer service)) (next : ℕ) (s : State)
        → IsLive k (loop_of w q stopping t next s)
        → IsLive k (work service (loop_of w q stopping t next s))
    unfolding work work_as work_on fail_pending_calls fail_all
    work-IsLive stuck q stopping k t next s h = h
    work-IsLive ended q stopping k t next s h = h
    work-IsLive running [] false k t next s h = h
    work-IsLive running [] true k t next s h = record { healthy = (refl, refl); waits = h.waits }
    work-IsLive running ((id, r) ∷ q) stopping k t next s h =
        let enough : Room (suc (k + length q)) s = subst (λ n. Room n s) (omega arith) h.healthy in
        let ((x, e), more) = room.returns_with (k + length q) s r enough in
        write_answer-IsLive id r stopping k q t next s (handle r s).1 x (handle r s).0 e more
          h.waits

    weaken_IsLive :
        (w : Worker) (k : ℕ) (q : List (ℕ × Request)) (stopping : Bool)
        → (t : Table (Answer service)) (next : ℕ) (s : State)
        → IsLive (suc k) (loop_of w q stopping t next s)
        → IsLive k (loop_of w q stopping t next s)
    weaken_IsLive running k q stopping t next s h = record {
      healthy = room.less (k + length q) s (subst (λ n. Room n s) (sum_suc k (length q)) h.healthy);
      waits = h.waits;
    }
    weaken_IsLive stuck k q stopping t next s h = record { healthy = h.healthy; waits = h.waits }
    weaken_IsLive ended k q stopping t next s h = record { healthy = h.healthy; waits = h.waits }

    begin_shutdown-IsLive :
        (w : Worker) (k : ℕ) (q : List (ℕ × Request)) (stopping : Bool)
        → (t : Table (Answer service)) (next : ℕ) (s : State)
        → IsLive k (loop_of w q stopping t next s)
        → IsLive k (begin_shutdown service (loop_of w q stopping t next s))
    unfolding begin_shutdown
    begin_shutdown-IsLive running k q stopping t next s h = record {
      healthy = h.healthy;
      waits = h.waits;
    }
    begin_shutdown-IsLive stuck k q stopping t next s h = record {
      healthy = h.healthy;
      waits = h.waits;
    }
    begin_shutdown-IsLive ended k q stopping t next s h = record {
      healthy = (h.healthy.0, refl);
      waits = h.waits;
    }

    step-IsLive :
        (e : Event service) (k : ℕ) (l : Loop service)
        → IsLive (suc k) l
        → IsLive k (step service e l)
    unfolding step enqueue_with_completion
    step-IsLive (enqueues r) k l h =
        enqueue_checked-IsLive r l.worker l.stopping k l.queue l.completions l.next_completion
          l.state h
    step-IsLive stops k l h =
        begin_shutdown-IsLive l.worker k l.queue l.stopping l.completions l.next_completion l.state
          (weaken_IsLive l.worker k l.queue l.stopping l.completions l.next_completion l.state h)
    step-IsLive works k l h =
        work-IsLive l.worker l.queue l.stopping k l.completions l.next_completion l.state
          (weaken_IsLive l.worker k l.queue l.stopping l.completions l.next_completion l.state h)

    run-IsLive :
        (es : List (Event service)) (l : Loop service)
        → IsLive (length es) l
        → IsLive 0 (run service es l)
    unfolding run
    run-IsLive [] l h = h
    run-IsLive (e ∷ es) l h = run-IsLive es (step service e l) (step-IsLive e (length es) l h)

    work_times-IsLive : (n : ℕ) (l : Loop service) → IsLive 0 l → IsLive 0 (work_times service n l)
    unfolding work_times
    work_times-IsLive zero l h = h
    work_times-IsLive (suc n) l h =
        work_times-IsLive n (work service l)
          (work-IsLive l.worker l.queue l.stopping 0 l.completions l.next_completion l.state h)

    written_next :
        (id : ℕ) (o : Option (Result Text Reply)) (s : State) (l : Loop service)
        → (write_answer service id (o, s) l).next_completion ≡ l.next_completion
    unfolding write_answer
    written_next id none s l = refl
    written_next id (some x) s l = refl

    work_next :
        (w : Worker) (q : List (ℕ × Request)) (stopping : Bool)
        → (t : Table (Answer service)) (next : ℕ) (s : State)
        → (work service (loop_of w q stopping t next s)).next_completion ≡ next
    unfolding work work_as work_on fail_pending_calls
    work_next stuck q stopping t next s = refl
    work_next ended q stopping t next s = refl
    work_next running [] false t next s = refl
    work_next running [] true t next s = refl
    work_next running ((id, r) ∷ q) stopping t next s =
        written_next id (handle r s).0 (handle r s).1 _

    work_times_next :
        (n : ℕ) (l : Loop service) → (work_times service n l).next_completion ≡ l.next_completion
    unfolding work_times
    work_times_next zero l = refl
    work_times_next (suc n) l =
        work_times_next n (work service l)
        ∙ work_next l.worker l.queue l.stopping l.completions l.next_completion l.state

    emptied :
        (w : Worker) (l : Loop service)
        → l.worker ≡ w
        → Healthy w 0 l.queue l.stopping l.state
        → (work_times service (length l.queue) l).queue ≡ []
    unfolding work_times
    emptied running l e h =
        (work_times-serve service Room room l e (subst (λ n. Room n l.state) (omega arith) h)).0
    emptied stuck l e h = absurd (ground (arith, h))
    emptied ended l e h = ap (λ q. (work_times service (length q) l).queue) h.0 ∙ h.0

    waited_done :
        (l : Loop service) (q : List (ℕ × Request)) (i : ℕ)
        → q ≡ []
        → Waits q l.completions l.next_completion
        → i < l.next_completion
        → is_done i l.completions ≡ true
    unfolding elem
    waited_done l q i e h lt = elim (Bool-cases (is_done i l.completions)) [
      | inl e1 ↦ e1
      | inr e2 ↦ absurd (ground (arith, subst (λ q. elem i (ids q) ≡ true) e (h i lt e2)))
    ]

    -- Whatever requests are made and wherever the runtime is told to stop, with the rounds of the
    -- worker anywhere in between: after as many more rounds as there are requests in the queue, every
    -- completion that was ever given out is done. The handlers have room for as many requests as there
    -- are events, and nothing else ends the worker.
    pub run-is_done :
        (es : List (Event service)) (s : State)
        → Room (length es) s
        → (i : ℕ) → i < (run service es (fresh_loop service s)).next_completion
        → let l = run service es (fresh_loop service s) in
          is_done i (work_times service (length l.queue) l).completions ≡ true
    run-is_done es s h i lt =
        let l = run service es (fresh_loop service s) in
        let start : IsLive (length es) (fresh_loop service s) = record {
          healthy = subst (λ n. Room n s) (omega arith) h;
          waits = λ j lt e. ground arith;
        } in
        let live = run-IsLive es (fresh_loop service s) start in
        let after = work_times service (length l.queue) l in
        waited_done after after.queue i (emptied l.worker l refl live.healthy)
          (work_times-IsLive (length l.queue) l live).waits
          (subst (λ n. i < n) (sym (work_times_next (length l.queue) l)) lt)
