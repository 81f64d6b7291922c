-- ===== src/Examples/AwaitRuns.antt =====
-- The promises without a value, at concrete inputs: one is awaited and comes to its end, another is
-- awaited and canceled.
use lean_capnproto.Prelude.{Option, none, some, List, [], ◌∷◌, codes}
use lean_capnproto.Prelude.Result.{Result, ok, err}
use lean_capnproto.Completions.{Text}
use lean_capnproto.UnitPromises.{Promises}
use lean_capnproto.UnitPromises.Answers.{IsAnswered}
use lean_capnproto.UnitPromises.Events.{
  Event, start, await_promise, cancel_promise, release_promise, end_of, progress, no_awaits, run,
  run-IsAnswered,
}

abbrev P : Type 0
P = Option (Result Text (Unit {0}))

abbrev settle_with : Result Text (Unit {0}) → P → P
settle_with r none = some r
settle_with r (some q) = some q

abbrev promises : Promises
promises = record {
  Promise = P;
  Turn = Unit {0};
  advance = λ t. settle_with (ok tt);
  cancel = λ message. settle_with (err message);
  drop = settle_with (err (codes "operation canceled"));
  settled = λ p. p;
  to_string = λ n. 48 ∷ [];
}

abbrev events : List (Event P (Unit {0}))
events =
    start none
    ∷ start none
    ∷ await_promise 1
    ∷ await_promise 2
    ∷ end_of 0
    ∷ cancel_promise 2
    ∷ progress tt 0
    ∷ end_of 0
    ∷ end_of 1
    ∷ release_promise 2
    ∷ []

run-IsAnswered_example : IsAnswered promises (run promises events (no_awaits promises))
run-IsAnswered_example = run-IsAnswered promises events
