-- ===== src/Examples/Queues.antt =====
-- The theorems on the queue of requests, at a runtime with one target.
use lean_capnproto.Prelude.{ℕ, ◌≡◌, refl, true, false, List, [], ◌∷◌, arith, length}
use lean_capnproto.Completions.{Text}
use lean_capnproto.Targets.{Rpc, State, TargetError}
use lean_capnproto.Requests.{
  Loop, Event, enqueues, stops, step, run, fresh_loop, enqueue_with_completion, enqueue_checked,
  begin_shutdown,
}
use lean_capnproto.Requests.Served.{Serves, work_times}
use lean_capnproto.Requests.Answered.{is_done}
use lean_capnproto.Requests.TargetService.{
  queued_retain_target, queued_release_target, queued_new_promise_capability, queued_fulfill,
  target_service,
}
use lean_capnproto.Requests.TargetAnswers.{queue-Serves, requests-is_done}

abbrev pub plain_rpc : Rpc
plain_rpc = record { Client = ℕ; LoopbackPeer = ℕ; NetworkPeer = ℕ }

abbrev no_text : TargetError → Text
no_text _ = []

abbrev pub one_target : State plain_rpc
one_target = record {
  targets = (1, 50) ∷ [];
  next_target_id = 2;
  loopback = record { peers = []; owner_by_target = []; owner_ref_count = [] };
  network = record { peers = []; owner_by_target = []; owner_ref_count = [] };
  fulfillers = [];
  next_fulfiller_id = 1;
  held_resolves = [];
  held_ids = [];
  hold_resolves = false;
  settlements = [];
}

abbrev three_waiting : Loop (target_service plain_rpc no_text)
three_waiting = record (fresh_loop (target_service plain_rpc no_text) one_target) {
  queue =
      (0, queued_retain_target 1)
      ∷ (1, queued_release_target 1)
      ∷ (2, queued_new_promise_capability 51 60)
      ∷ [];
  next_completion = 3;
}

queue-Serves_example : Serves (target_service plain_rpc no_text) three_waiting
queue-Serves_example = queue-Serves plain_rpc no_text three_waiting refl record {
  targets = omega arith;
  fulfillers = omega arith;
  next_target = omega arith;
  next_fulfiller = omega arith;
}

abbrev four_requests : List (Event (target_service plain_rpc no_text))
four_requests =
    enqueues (queued_retain_target 1)
    ∷ enqueues (queued_new_promise_capability 51 60)
    ∷ enqueues (queued_fulfill 1 2)
    ∷ stops
    ∷ enqueues (queued_release_target 1)
    ∷ []

abbrev after_four : Loop (target_service plain_rpc no_text)
after_four =
    run (target_service plain_rpc no_text) four_requests
      (fresh_loop (target_service plain_rpc no_text) one_target)

requests-is_done_example :
    is_done
      (target_service plain_rpc no_text)
      2
      (work_times
        (target_service plain_rpc no_text)
        (length after_four.queue)
        after_four).completions
    ≡ true
unfolding run step enqueue_with_completion enqueue_checked begin_shutdown
requests-is_done_example =
    requests-is_done plain_rpc no_text four_requests one_target 2
      record {
        targets = omega arith;
        fulfillers = omega arith;
        next_target = omega arith;
        next_fulfiller = omega arith;
      }
      (omega arith)
