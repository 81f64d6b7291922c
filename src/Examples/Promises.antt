-- ===== src/Examples/Promises.antt =====
-- ffi/kj_async_bridge.cpp: a runtime with two promises.
use lean_capnproto.Prelude.{ℕ, refl, none, List, [], ◌∷◌, ◌++◌, ◌==◌, arith, inl, length}
use lean_capnproto.Prelude.Table.{find, elem}
use lean_capnproto.KjPromises.{Kj, Runtime, fresh_runtime}
use lean_capnproto.KjPromises.Fresh.{HasRoom}
use lean_capnproto.KjPromises.Combine.{
  AllLive, Joins, StopsAt, promise_all_start_lem, promise_all_start_stops,
}
use lean_capnproto.KjPromises.Ids.{IsWell}
use lean_capnproto.KjPromises.Race.{Races, promise_race_start_lem}
use lean_capnproto.KjPromises.Calls.{run, add, all_start, await, run-IsWell}

abbrev concat : List (List ℕ) → List ℕ
concat [] = []
concat (p ∷ ps) = p ++ concat ps

-- Promises that list the numbers of the jobs that they wait for, and that always succeed.
abbrev jobs : Kj
jobs = record {
  Promise = List ℕ;
  Failure = ℕ;
  join = concat;
  exclusive_join = λ p q. p;
  and_then = λ p q. p ++ q;
  recover = λ p q. p;
  cancel = λ p. [];
  wait = λ p. none;
  is_empty = λ ps. length ps == 0;
  on_empty = concat;
}

abbrev two_promises : Runtime (List ℕ)
two_promises = record fresh_runtime {
  promises = (1, 5 ∷ []) ∷ (2, 6 ∷ []) ∷ [];
  next_promise_id = 3;
}

two_promises-HasRoom : HasRoom two_promises
two_promises-HasRoom = record { counter = omega arith; room = omega arith }

both_live : AllLive (1 ∷ 2 ∷ []) ((5 ∷ []) ∷ (6 ∷ []) ∷ []) two_promises.promises
unfolding find
both_live = (refl, (refl, tt))

run-IsWell_example :
    IsWell (run jobs (add (5 ∷ []) ∷ add [] ∷ all_start (1 ∷ 2 ∷ []) ∷ await 3 ∷ []) fresh_runtime)
run-IsWell_example = run-IsWell jobs (add (5 ∷ []) ∷ add [] ∷ all_start (1 ∷ 2 ∷ []) ∷ await 3 ∷ [])

promise_all_start_lem_example : Joins jobs (1 ∷ 2 ∷ []) ((5 ∷ []) ∷ (6 ∷ []) ∷ []) two_promises
unfolding elem
promise_all_start_lem_example =
    promise_all_start_lem jobs (1 ∷ 2 ∷ []) ((5 ∷ []) ∷ (6 ∷ []) ∷ []) two_promises both_live
      (refl, (refl, tt)) two_promises-HasRoom

promise_all_start_stops_example : StopsAt jobs (1 ∷ 2 ∷ []) 1 (7 ∷ []) two_promises
unfolding elem
promise_all_start_stops_example =
    promise_all_start_stops jobs (1 ∷ 2 ∷ []) 1 (7 ∷ []) ((5 ∷ []) ∷ (6 ∷ []) ∷ []) two_promises
      both_live (refl, (refl, tt)) (inl refl)

promise_race_start_lem_example : Races jobs 1 (2 ∷ []) (5 ∷ []) ((6 ∷ []) ∷ []) two_promises
unfolding elem
promise_race_start_lem_example =
    promise_race_start_lem jobs 1 (2 ∷ []) (5 ∷ []) ((6 ∷ []) ∷ []) two_promises both_live
      (refl, (refl, tt)) two_promises-HasRoom
