-- ===== src/KjPromises/Race.antt =====
-- ffi/kj_async_bridge.cpp, `promiseRaceStart`: what it makes of live ids.
use lean_capnproto.Prelude.{
  ℕ, ◌^◌, ◌<◌, ◌≡◌, none, some, List, [], ◌∷◌, ◌==◌, arith, if◌then◌else◌, refl,
}
use mathlib.Core.List.{foldl}
use lean_capnproto.Prelude.Exec.{returns}
use lean_capnproto.Prelude.Table.{find, elem, find-assign}
use lean_capnproto.KjPromises.{Kj, Runtime, retire, race_loop, promise_race_start}
use lean_capnproto.KjPromises.Fresh.{HasRoom, add_promise_fresh, added}
use lean_capnproto.KjPromises.Combine.{
  AllLive, NoRepeat, retire_all, retire_all-find, retire_all-HasRoom, take_live, AllLive-retire,
}

module _ (kj : Kj) where
  open kj use {Promise, exclusive_join}

  race_loop-live :
      (raced : Promise) (ids : List ℕ) (ps : List Promise) (s : Runtime Promise)
      → AllLive ids ps s.promises
      → NoRepeat ids
      → race_loop kj raced ids s ≡ (returns (foldl exclusive_join raced ps), retire_all kj ids s)
  unfolding race_loop
  race_loop-live raced [] [] s l n = refl
  race_loop-live raced [] (p ∷ ps) s l n = absurd l
  race_loop-live raced (id ∷ ids) [] s l n = absurd l
  race_loop-live raced (id ∷ ids) (p ∷ ps) s l n =
      let rest =
        race_loop-live (exclusive_join raced p) ids ps (retire kj id s)
          (AllLive-retire kj id ids ps s n.0 l.1) n.1 in
      rw (take_live kj id p s l.0) (rw rest)

  -- The ids' promises race under one id.
  abbrev pub Races : ℕ → List ℕ → Promise → List Promise → Runtime Promise → Type 0
  Races first ids p ps s =
      (id : ℕ) × (s' : Runtime Promise) × (promise_race_start kj (first ∷ ids) s ≡ (returns id, s'))
      × (id < 2 ^ 32)
      × ((j : ℕ)
          → find j s'.promises ≡ (
              if id == j
              then some (foldl exclusive_join p ps)
              else if elem j (first ∷ ids)
              then none
              else find j s.promises))

  -- For live ids without repetition, at least one, and with room for one more promise,
  -- `promiseRaceStart` returns an id below 2 ^ 32 that holds the first id's promise, joined exclusively
  -- with each of the others in turn; the ids that were taken are gone, unless the new id is one of
  -- them, and every other id is as before.
  pub promise_race_start_lem :
      (first : ℕ) (ids : List ℕ) (p : Promise) (ps : List Promise) (s : Runtime Promise)
      → AllLive (first ∷ ids) (p ∷ ps) s.promises
      → NoRepeat (first ∷ ids)
      → HasRoom s
      → Races first ids p ps s
  unfolding promise_race_start
  promise_race_start_lem first ids p ps s l n h =
      let raced = foldl exclusive_join p ps in
      let s1 = retire_all kj (first ∷ ids) s in
      let (r, (e, free, small)) =
        add_promise_fresh kj raced s1 (retire_all-HasRoom kj (first ∷ ids) s h) in
      let loop =
        race_loop-live p ids ps (retire kj first s) (AllLive-retire kj first ids ps s n.0 l.1)
          n.1 in
      (
        r.0,
        added kj raced s1 r,
        rw (take_live kj first p s l.0) (rw loop (rw e)),
        small,
        (λ j.
            ground
              (arith, find-assign r.0 j raced s1.promises, retire_all-find kj (first ∷ ids) j s)),
      )
