-- ===== src/KjPromises/Combine.antt =====
-- ffi/kj_async_bridge.cpp, `promiseAllStart` and `promiseRaceStart`: what they take and what they
-- leave, when they succeed and when they throw.
use lean_capnproto.Prelude.{
  ℕ, ◌^◌, ◌<◌, ◌≡◌, ◌⊎◌, inl, inr, refl, true, false, ◌||◌, none, some, List, [], ◌∷◌, ◌++◌, ◌==◌,
  arith, if◌then◌else◌,
}
use lean_capnproto.Prelude.Exec.{returns, throws}
use lean_capnproto.Prelude.Table.{
  Table, find, erase, elem, find-erase, find-assign, elem-insert, elem-remove,
}
use lean_capnproto.KjPromises.{
  Kj, KjError, Runtime, retire, take_promise, take_all, promise_all_start, consumed_promise,
  unknown_promise,
}
use lean_capnproto.KjPromises.Fresh.{HasRoom, add_promise_fresh, added, retire-HasRoom}

-- The ids are live, with the promises of the second list.
abbrev pub AllLive : {P : Type 0} → List ℕ → List P → Table P → Type 0
AllLive [] [] t = Unit
AllLive [] (p ∷ ps) t = ⊥
AllLive (id ∷ ids) [] t = ⊥
AllLive (id ∷ ids) (p ∷ ps) t = (find id t ≡ some p) × AllLive ids ps t

abbrev pub NoRepeat : List ℕ → Type 0
NoRepeat [] = Unit
NoRepeat (id ∷ ids) = (elem id ids ≡ false) × NoRepeat ids

AllLive-erase :
    {P : Type 0} (k : ℕ) (ids : List ℕ) (ps : List P) (t : Table P)
    → elem k ids ≡ false
    → AllLive ids ps t
    → AllLive ids ps (erase k t)
unfolding elem
AllLive-erase k [] [] t h l = tt
AllLive-erase k [] (p ∷ ps) t h l = l
AllLive-erase k (id ∷ ids) [] t h l = l
AllLive-erase k (id ∷ ids) (p ∷ ps) t h l =
    ground (arith, find-erase k id t, AllLive-erase k ids ps t)

module _ (kj : Kj) where
  open kj use {Promise, join, exclusive_join}

  -- The state after the ids were taken, one after the other.
  abbrev pub retire_all : List ℕ → Runtime Promise → Runtime Promise
  retire_all [] s = s
  retire_all (id ∷ ids) s = retire_all ids (retire kj id s)

  retire-find :
      (id j : ℕ) (s : Runtime Promise)
      → find j (retire kj id s).promises ≡ (if id == j then none else find j s.promises)
  unfolding retire
  retire-find id j s = find-erase id j s.promises

  retire-elem :
      (id j : ℕ) (s : Runtime Promise)
      → elem j (retire kj id s).retired_promise_ids
        ≡ (if id == j then true else elem j s.retired_promise_ids)
  unfolding retire
  retire-elem id j s = elem-insert id j s.retired_promise_ids

  pub retire_all-find :
      (ids : List ℕ) (j : ℕ) (s : Runtime Promise)
      → find j (retire_all ids s).promises ≡ (if elem j ids then none else find j s.promises)
  unfolding elem
  retire_all-find [] j s = refl
  retire_all-find (id ∷ ids) j s =
      ground (arith, retire_all-find ids j (retire kj id s), retire-find id j s)

  pub retire_all-elem :
      (ids : List ℕ) (j : ℕ) (s : Runtime Promise)
      → elem j (retire_all ids s).retired_promise_ids ≡ (elem j ids || elem j s.retired_promise_ids)
  unfolding elem
  retire_all-elem [] j s = refl
  retire_all-elem (id ∷ ids) j s =
      ground (arith, retire_all-elem ids j (retire kj id s), retire-elem id j s)

  pub retire_all-HasRoom :
      (ids : List ℕ) (s : Runtime Promise) → HasRoom s → HasRoom (retire_all ids s)
  retire_all-HasRoom [] s h = h
  retire_all-HasRoom (id ∷ ids) s h =
      retire_all-HasRoom ids (retire kj id s) (retire-HasRoom kj id s h)

  pub take_live :
      (id : ℕ) (p : Promise) (s : Runtime Promise)
      → find id s.promises ≡ some p
      → take_promise kj id s ≡ (returns p, retire kj id s)
  unfolding take_promise
  take_live id p s h = rw (h, take_promise)

  pub AllLive-retire :
      (id : ℕ) (ids : List ℕ) (ps : List Promise) (s : Runtime Promise)
      → elem id ids ≡ false
      → AllLive ids ps s.promises
      → AllLive ids ps (retire kj id s).promises
  unfolding retire
  AllLive-retire id ids ps s h l = AllLive-erase id ids ps s.promises h l

  take_all_live :
      (ids : List ℕ) (ps : List Promise) (s : Runtime Promise)
      → AllLive ids ps s.promises
      → NoRepeat ids
      → take_all kj ids s ≡ (returns ps, retire_all ids s)
  unfolding take_all
  take_all_live [] [] s l n = refl
  take_all_live [] (p ∷ ps) s l n = absurd l
  take_all_live (id ∷ ids) [] s l n = absurd l
  take_all_live (id ∷ ids) (p ∷ ps) s l n =
      let rest = take_all_live ids ps (retire kj id s) (AllLive-retire id ids ps s n.0 l.1) n.1 in
      rw (take_live id p s l.0) (rw rest)

  -- An id that is not live any more stops the loop; what was taken before it stays taken.
  abbrev pub take_error : ℕ → List ℕ → Runtime Promise → KjError kj.Failure
  take_error bad front s =
      if elem bad front || elem bad s.retired_promise_ids
      then consumed_promise bad
      else unknown_promise bad

  take_dead :
      (id : ℕ) (s : Runtime Promise)
      → find id s.promises ≡ none
      → take_promise kj id s ≡ (throws (take_error id [] s), s)
  unfolding take_promise elem
  take_dead id s h = rw (h, take_promise) (ground arith)

  take_all_stops :
      (front : List ℕ) (bad : ℕ) (rest : List ℕ) (ps : List Promise) (s : Runtime Promise)
      → AllLive front ps s.promises
      → NoRepeat front
      → find bad (retire_all front s).promises ≡ none
      → take_all kj (front ++ (bad ∷ rest)) s
        ≡ (throws (take_error bad [] (retire_all front s)), retire_all front s)
  unfolding take_all
  take_all_stops [] bad rest [] s l n h = rw (take_dead bad s h)
  take_all_stops [] bad rest (p ∷ ps) s l n h = absurd l
  take_all_stops (id ∷ front) bad rest [] s l n h = absurd l
  take_all_stops (id ∷ front) bad rest (p ∷ ps) s l n h =
      let later =
        take_all_stops front bad rest ps (retire kj id s) (AllLive-retire id front ps s n.0 l.1) n.1
          h in
      rw (take_live id p s l.0) (rw later)

  -- The ids' promises were joined under one id.
  abbrev pub Joins : List ℕ → List Promise → Runtime Promise → Type 0
  Joins ids ps s =
      (id : ℕ) × (s' : Runtime Promise) × (promise_all_start kj ids s ≡ (returns id, s'))
      × (id < 2 ^ 32)
      × ((j : ℕ)
          → find j s'.promises
            ≡ (if id == j then some (join ps) else if elem j ids then none else find j s.promises))
      × ((j : ℕ)
          → elem j s'.retired_promise_ids
            ≡ (if id == j then false else elem j ids || elem j s.retired_promise_ids))

  -- For live ids without repetition and with room for one more promise, `promiseAllStart` returns an
  -- id below 2 ^ 32 that holds the join of the ids' promises, in order; every other id is as before,
  -- but for those that were taken, which are gone and, unless the new id is one of them, retired.
  pub promise_all_start_lem :
      (ids : List ℕ) (ps : List Promise) (s : Runtime Promise)
      → AllLive ids ps s.promises
      → NoRepeat ids
      → HasRoom s
      → Joins ids ps s
  unfolding promise_all_start
  promise_all_start_lem ids ps s l n h =
      let (r, (e, free, small)) =
        add_promise_fresh kj (join ps) (retire_all ids s) (retire_all-HasRoom ids s h) in
      (
        r.0,
        added kj (join ps) (retire_all ids s) r,
        rw (take_all_live ids ps s l n) (rw e),
        small,
        (λ j. ground (
          arith,
          find-assign r.0 j (join ps) (retire_all ids s).promises,
          retire_all-find ids j s,
        )),
        (λ j. ground (
          arith,
          elem-remove r.0 j (retire_all ids s).retired_promise_ids,
          retire_all-elem ids j s,
        )),
      )

  bad_gone :
      (front : List ℕ) (bad : ℕ) (s : Runtime Promise)
      → (elem bad front ≡ true) ⊎ (find bad s.promises ≡ none)
      → find bad (retire_all front s).promises ≡ none
  bad_gone front bad s (inl h) = rw (retire_all-find front bad s, h)
  bad_gone front bad s (inr h) = ground (arith, retire_all-find front bad s, h)

  take_error-retired :
      (front : List ℕ) (bad : ℕ) (s : Runtime Promise)
      → take_error bad [] (retire_all front s) ≡ take_error bad front s
  unfolding elem
  take_error-retired front bad s = ground (arith, retire_all-elem front bad s)

  -- The error is that of `bad`, and the ids of `front` are used up.
  abbrev pub StopsAt : List ℕ → ℕ → List ℕ → Runtime Promise → Type 0
  StopsAt front bad rest s =
      (s' : Runtime Promise) × (promise_all_start kj (front ++ (bad ∷ rest)) s
        ≡ (throws (take_error bad front s), s'))
      × ((j : ℕ) → find j s'.promises ≡ (if elem j front then none else find j s.promises))

  -- Where an id behind live ones is not live, or repeats one of them, `promiseAllStart` throws:
  -- "already consumed" for an id that repeats or is retired, "unknown" for any other. The ids before
  -- it are consumed all the same: they are gone from the table, and no other id is.
  pub promise_all_start_stops :
      (front : List ℕ) (bad : ℕ) (rest : List ℕ) (ps : List Promise) (s : Runtime Promise)
      → AllLive front ps s.promises
      → NoRepeat front
      → (elem bad front ≡ true) ⊎ (find bad s.promises ≡ none)
      → StopsAt front bad rest s
  unfolding promise_all_start
  promise_all_start_stops front bad rest ps s l n h = (
    retire_all front s,
    rw (take_all_stops front bad rest ps s l n (bad_gone front bad s h))
        (rw (take_error-retired front bad s)),
    λ j. retire_all-find front j s,
  )
