-- ===== src/UnitPromises/Runs.antt =====
-- ffi/rpc_bridge_runtime.cpp, class RuntimeLoop: what each request about a promise without a value does
-- to the completions.
use lean_capnproto.Prelude.{ℕ, arith, refl, ap, ◌∙◌, ◌≡◌, ◌≢◌, true, Option, none, some}
use lean_capnproto.Prelude.Exec.{Outcome, returns, throws, loops}
use lean_capnproto.Prelude.Exec.Ends.{Ends}
use lean_capnproto.Prelude.Result.{Result, ok, err}
use lean_capnproto.Prelude.Table.{find, find-erase}
use lean_capnproto.Completions.{
  Text, UnitCompletion, succeed, fail, complete_unit_success, complete_unit_failure,
}
use lean_capnproto.UnitPromises.{
  Promises, unknown_unit_promise, Task, Awaits, drop_canceler, take_found,
  take_unit_promise_for_await, await_taken, await_request, completion_of, settle_task, finish_found,
  finish, new_completion, erase_active, schedule_unit_promise_completion, end_task, answer,
  cancel_found, cancel_unit_promise, cancel_active, release_looked_up, release_active,
  release_unit_promise,
}
use lean_capnproto.UnitPromises.Answers.{
  Similar, drop_canceler-Similar, IsAnswered, IsAsking, Similar-IsAnsweredBut, change_task-Similar,
  erase_active-IsAnsweredBut, start_task, stop_task, complete-IsAnswered, task_id, awaited_as,
}

module _ (kj : Promises) where
  open kj use {Promise}

  Similar-IsAsking :
      (k : ℕ) (s s' : Awaits kj) → Similar kj s s' → IsAsking kj k s → IsAsking kj k s'
  Similar-IsAsking k s s' e h = record {
    others = Similar-IsAnsweredBut kj s s' e h.others;
    counted = omega (arith, e.next, h.counted);
    unwritten = ap (find k) e.completions ∙ h.unwritten;
  }

  module _ (k : ℕ) where
    cancel_active-Ends :
        (id : ℕ) (o : Option ℕ) → Ends (IsAsking kj k) (IsAsking kj k) (cancel_active kj id o)
    unfolding cancel_active
    cancel_active-Ends id none = record { ends = λ s h. ((λ q. ground (arith, q)), h) }
    cancel_active-Ends id (some c) = record {
      ends = λ s h.
          ((λ q. ground (arith, q)), Similar-IsAsking k s _ (change_task-Similar kj _ c s) h);
    }

    cancel_found-Ends :
        (id : ℕ) (o : Option Promise) → Ends (IsAsking kj k) (IsAsking kj k) (cancel_found kj id o)
    unfolding cancel_found
    cancel_found-Ends id none = record {
      ends = λ s h. (cancel_active-Ends id (find id s.active_cancelers)).ends s h;
    }
    cancel_found-Ends id (some p) = record {
      ends = λ s h. (
        (λ q. ground (arith, q)),
        Similar-IsAsking k s _
            (record { tasks = λ _. refl; active = refl; completions = refl; next = refl }) h,
      );
    }

    pub cancel_unit_promise-Ends :
        (id : ℕ) → Ends (IsAsking kj k) (IsAsking kj k) (cancel_unit_promise kj id)
    unfolding cancel_unit_promise
    cancel_unit_promise-Ends id = record {
      ends = λ s h. (cancel_found-Ends id (find id s.unit_promises)).ends s h;
    }

    erase_active-IsAsking :
        (id : ℕ) (s : Awaits kj) → IsAsking kj k s → IsAsking kj k (erase_active kj id s)
    unfolding erase_active
    erase_active-IsAsking id s h =
        let e = drop_canceler-Similar kj (find id s.active_cancelers) s in
        record {
          others = erase_active-IsAnsweredBut kj id s h.others;
          counted = omega (arith, e.next, h.counted);
          unwritten = ap (find k) e.completions ∙ h.unwritten;
        }

    release_active-Ends :
        (id : ℕ) (o : Option ℕ) → Ends (IsAsking kj k) (IsAsking kj k) (release_active kj id o)
    unfolding release_active
    release_active-Ends id none = record { ends = λ s h. ((λ q. ground (arith, q)), h) }
    release_active-Ends id (some c) = record {
      ends = λ s h. ((λ q. ground (arith, q)), erase_active-IsAsking id s h);
    }

    -- The promises that are not awaited play no part.
    others_kept :
        (s s' : Awaits kj)
        → s'.active_cancelers ≡ s.active_cancelers
        → s'.tasks ≡ s.tasks
        → s'.completions ≡ s.completions
        → s'.next_completion ≡ s.next_completion
        → IsAsking kj k s
        → IsAsking kj k s'
    others_kept s s' a t c n h =
        Similar-IsAsking k s s'
          (record {
            tasks = λ j. ap (λ x. awaited_as kj (find j x)) t;
            active = a;
            completions = c;
            next = n;
          })
          h

    release_looked_up-Ends :
        (id : ℕ) (o : Option Promise)
        → Ends (IsAsking kj k) (IsAsking kj k) (release_looked_up kj id o)
    unfolding release_looked_up
    release_looked_up-Ends id none = record {
      ends = λ s h. (release_active-Ends id (find id s.active_cancelers)).ends s h;
    }
    release_looked_up-Ends id (some p) = record {
      ends = λ s h. ((λ q. ground (arith, q)), others_kept s _ refl refl refl refl h);
    }

    pub release_unit_promise-Ends :
        (id : ℕ) → Ends (IsAsking kj k) (IsAsking kj k) (release_unit_promise kj id)
    unfolding release_unit_promise
    release_unit_promise-Ends id = record {
      ends = λ s h. (release_looked_up-Ends id (find id s.unit_promises)).ends s h;
    }

    pub answer-IsAnswered :
        (o : Outcome Text (Unit {0})) (s : Awaits kj)
        → o ≢ loops
        → IsAsking kj k s
        → IsAnswered kj (answer kj k (o, s))
    unfolding answer succeed fail
    answer-IsAnswered (returns _) s n h =
        complete-IsAnswered kj k (complete_unit_success new_completion) s refl h.others
    answer-IsAnswered (throws message) s n h =
        complete-IsAnswered kj k (complete_unit_failure message new_completion) s refl h.others
    answer-IsAnswered loops s n h = absurd (n refl)

    schedule-IsAnswered :
        (id : ℕ) (p : Promise) (s : Awaits kj)
        → IsAsking kj k s
        → IsAnswered kj (schedule_unit_promise_completion kj id p k s)
    unfolding schedule_unit_promise_completion
    schedule-IsAnswered id p s h =
        start_task kj id k p (erase_active kj id s) (erase_active-IsAsking id s h)

    await_found-IsAnswered :
        (id : ℕ) (o : Option Promise) (s : Awaits kj)
        → IsAsking kj k s
        → IsAnswered kj (await_taken kj id k (take_found kj id o s))
    unfolding await_taken take_found succeed fail
    await_found-IsAnswered id none s h =
        complete-IsAnswered kj k (complete_unit_failure (unknown_unit_promise kj id) new_completion)
          s refl h.others
    await_found-IsAnswered id (some p) s h =
        schedule-IsAnswered id p _ (others_kept s _ refl refl refl refl h)

    pub await_request-IsAnswered :
        (id : ℕ) (s : Awaits kj) → IsAsking kj k s → IsAnswered kj (await_request kj id k s)
    unfolding await_request take_unit_promise_for_await
    await_request-IsAnswered id s h = await_found-IsAnswered id (find id s.unit_promises) s h

    end_task-IsAnswered :
        (id : ℕ) (a : UnitCompletion) (s : Awaits kj)
        → a.done ≡ true
        → task_id kj s k ≡ some id
        → IsAnswered kj s
        → IsAnswered kj (end_task kj id k a s)
    unfolding end_task erase_active
    end_task-IsAnswered id a s written own h =
        let o = find id s.active_cancelers in
        let e = drop_canceler-Similar kj o s in
        complete-IsAnswered kj k a _ written (
          stop_task kj id k (erase_active kj id s) (erase_active-IsAnsweredBut kj id s h)
            (e.tasks k ∙ own)
            (ground (arith, find-erase id id (drop_canceler kj o s).active_cancelers)))

    settle_task-IsAnswered :
        (id : ℕ) (o : Option (Result Text (Unit {0}))) (s : Awaits kj)
        → task_id kj s k ≡ some id
        → IsAnswered kj s
        → IsAnswered kj (settle_task kj id k o s)
    unfolding settle_task succeed fail
    settle_task-IsAnswered id none s own h = h
    settle_task-IsAnswered id (some (ok u)) s own h =
        end_task-IsAnswered id (completion_of kj (ok u)) s refl own h
    settle_task-IsAnswered id (some (err m)) s own h =
        end_task-IsAnswered id (completion_of kj (err m)) s refl own h

    finish_found-IsAnswered :
        (o : Option (Task kj)) (s : Awaits kj)
        → find k s.tasks ≡ o
        → IsAnswered kj s
        → IsAnswered kj (finish_found kj k o s)
    unfolding finish_found awaited_as
    finish_found-IsAnswered none s e h = h
    finish_found-IsAnswered (some t) s e h =
        settle_task-IsAnswered t.promise_id (kj.settled t.promise) s (ap (awaited_as kj) e) h

    pub finish-IsAnswered : (s : Awaits kj) → IsAnswered kj s → IsAnswered kj (finish kj k s)
    unfolding finish
    finish-IsAnswered s h = finish_found-IsAnswered (find k s.tasks) s refl h
