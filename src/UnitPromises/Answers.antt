-- ===== src/UnitPromises/Answers.antt =====
-- ffi/rpc_bridge_runtime.cpp, class RuntimeLoop: any sequence of requests about promises without a
-- value and of turns of the event loop.
use lean_capnproto.Prelude.{
  ℕ, arith, Bool-cases, refl, sym, ap, ◌∙◌, ◌+◌, ◌≤◌, ◌<◌, ◌==◌, ◌≡◌, Bool, true, false, Option,
  none, some, inl, inr,
}
use lean_capnproto.Prelude.Table.{
  Table, find, contains, erase, assign, find-erase, find-assign, contains-assign,
}
use lean_capnproto.Completions.{UnitCompletion}
use lean_capnproto.UnitPromises.{
  Promises, Task, Awaits, new_completion, change_found, change_task, drop_canceler, erase_active,
  complete,
}

module _ (kj : Promises) where
  open kj use {Promise}

  -- The id that a task was awaited by.
  unfoldable pub awaited_as : Option (Task kj) → Option ℕ
  awaited_as none = none
  awaited_as (some t) = some t.promise_id

  abbrev pub task_id : Awaits kj → ℕ → Option ℕ
  task_id s c = awaited_as (find c s.tasks)

  unfoldable pub is_idle : Option ℕ → Bool
  is_idle none = true
  is_idle (some id) = false

  awaited-change_found :
      (f : Promise → Promise) (c j : ℕ) (o : Option (Task kj)) (tasks : Table (Task kj))
      → find c tasks ≡ o
      → awaited_as (find j (change_found kj f c o tasks)) ≡ awaited_as (find j tasks)
  unfolding awaited_as change_found
  awaited-change_found f c j none tasks e = refl
  awaited-change_found f c j (some t) tasks e =
      ground (arith, find-assign c j (record t { promise = f t.promise }) tasks)

  task_id-change_task :
      (f : Promise → Promise) (c j : ℕ) (s : Awaits kj)
      → task_id (change_task kj f c s) j ≡ task_id s j
  unfolding change_task
  task_id-change_task f c j s = awaited-change_found f c j (find c s.tasks) s.tasks refl

  -- The same cancelers and completions, and tasks of the same ids.
  pub record Similar (s s' : Awaits kj) : Type 0 where
    pub tasks : (c : ℕ) → task_id s' c ≡ task_id s c
    pub active : s'.active_cancelers ≡ s.active_cancelers
    pub completions : s'.completions ≡ s.completions
    pub next : s'.next_completion ≡ s.next_completion

  pub change_task-Similar :
      (f : Promise → Promise) (c : ℕ) (s : Awaits kj) → Similar s (change_task kj f c s)
  unfolding change_task
  change_task-Similar f c s = record {
    tasks = λ j. task_id-change_task f c j s;
    active = refl;
    completions = refl;
    next = refl;
  }

  pub drop_canceler-Similar : (o : Option ℕ) (s : Awaits kj) → Similar s (drop_canceler kj o s)
  unfolding drop_canceler
  drop_canceler-Similar none s = record {
    tasks = λ _. refl;
    active = refl;
    completions = refl;
    next = refl;
  }
  drop_canceler-Similar (some c) s = change_task-Similar kj.drop c s

  -- An active canceler is that of a task in flight, which was awaited by the canceler's id; each
  -- completion that was asked for is written exactly if no task is to write it. The completions that
  -- are `free` are neither written nor in the hands of a task.
  pub record IsAnsweredBut (free : ℕ → Bool) (s : Awaits kj) : Type 0 where
    pub active : (id c : ℕ) → find id s.active_cancelers ≡ some c → task_id s c ≡ some id
    pub answered :
        (c : ℕ) (a : UnitCompletion)
        → free c ≡ false
        → find c s.completions ≡ some a
        → a.done ≡ is_idle (task_id s c)
    pub idle : (c : ℕ) → free c ≡ true → task_id s c ≡ none
    pub asked : (c : ℕ) → c < s.next_completion → contains c s.completions ≡ true
    pub later : (c : ℕ) → s.next_completion ≤ c → task_id s c ≡ none

  abbrev pub IsAnswered : Awaits kj → Type 0
  IsAnswered = IsAnsweredBut (λ c. false)

  module _ {free : ℕ → Bool} where
    pub Similar-IsAnsweredBut :
        (s s' : Awaits kj) → Similar s s' → IsAnsweredBut free s → IsAnsweredBut free s'
    Similar-IsAnsweredBut s s' e h = record {
      active = λ id c q. e.tasks c ∙ h.active id c (ap (find id) (sym e.active) ∙ q);
      answered = λ c a n q.
          h.answered c a n (ap (find c) (sym e.completions) ∙ q)
          ∙ ap (λ o. is_idle o) (sym (e.tasks c));
      idle = λ c q. e.tasks c ∙ h.idle c q;
      asked = λ c q. ap (contains c) e.completions ∙ h.asked c (omega (arith, e.next));
      later = λ c q. e.tasks c ∙ h.later c (omega (arith, e.next));
    }

    -- Without the canceler of one id
    without_active :
        (id : ℕ) (s : Awaits kj)
        → IsAnsweredBut free s
        → IsAnsweredBut free (record s { active_cancelers = erase id s.active_cancelers })
    without_active id s h = record {
      active = λ j c q. ground (arith, find-erase id j s.active_cancelers, h.active j c);
      answered = h.answered;
      idle = h.idle;
      asked = h.asked;
      later = h.later;
    }

    pub erase_active-IsAnsweredBut :
        (id : ℕ) (s : Awaits kj) → IsAnsweredBut free s → IsAnsweredBut free (erase_active kj id s)
    unfolding erase_active
    erase_active-IsAnsweredBut id s h =
        let s' = drop_canceler kj (find id s.active_cancelers) s in
        without_active id s'
          (Similar-IsAnsweredBut s s' (drop_canceler-Similar (find id s.active_cancelers) s) h)

  -- A request's completion is the only one that is free, and it is not written.
  pub complete-IsAnswered :
      (k : ℕ) (a : UnitCompletion) (s : Awaits kj)
      → a.done ≡ true
      → IsAnsweredBut (λ c. k == c) s
      → IsAnswered (complete kj k a s)
  unfolding complete is_idle
  complete-IsAnswered k a s written h = record {
    active = h.active;
    answered = λ c b n q. elim (Bool-cases (k == c)) [
      | inl e ↦ ground (arith, find-assign k c a s.completions, h.idle c e)
      | inr e ↦ h.answered c b e (ground (arith, find-assign k c a s.completions))
    ];
    idle = λ c q. ground (arith, q);
    asked = λ c q. ground (arith, contains-assign k c a s.completions, h.asked c q);
    later = h.later;
  }

  -- A request that is being carried out: its completion is new.
  pub record IsAsking (k : ℕ) (s : Awaits kj) : Type 0 where
    pub others : IsAnsweredBut (λ c. k == c) s
    pub counted : k < s.next_completion
    pub unwritten : find k s.completions ≡ some new_completion

  pub asking :
      (s : Awaits kj)
      → IsAnswered s
      → IsAsking s.next_completion (record s {
        completions = assign s.next_completion new_completion s.completions;
        next_completion = s.next_completion + 1;
      })
  asking s h = record {
    others = record {
      active = h.active;
      answered = λ c a n q.
          h.answered c a refl
            (ground (arith, find-assign s.next_completion c new_completion s.completions));
      idle = λ c q. h.later c (ground (arith, q));
      asked = λ c q.
          ground
            (arith, contains-assign s.next_completion c new_completion s.completions, h.asked c);
      later = λ c q. h.later c (omega (arith, q));
    };
    counted = omega arith;
    unwritten =
        ground
          (arith, find-assign s.next_completion s.next_completion new_completion s.completions);
  }

  -- The task of the completion starts.
  pub start_task :
      (id k : ℕ) (p : Promise) (s : Awaits kj)
      → IsAsking k s
      → IsAnswered (record s {
        active_cancelers = assign id k s.active_cancelers;
        tasks = assign k (record { promise = p; promise_id = id }) s.tasks;
      })
  unfolding awaited_as is_idle
  start_task id k p s h =
      let task : Task kj = record { promise = p; promise_id = id } in
      let others = h.others in
      record {
        active = λ j c q. ground (
          arith,
          find-assign id j k s.active_cancelers,
          find-assign k c task s.tasks,
          others.active j c,
          others.idle c,
        );
        answered = λ c a n q. elim (Bool-cases (k == c)) [
          | inl e ↦ ground (arith, find-assign k c task s.tasks, h.unwritten)
          | inr e ↦ others.answered c a e q ∙ ground (arith, find-assign k c task s.tasks)
        ];
        idle = λ c q. ground (arith, q);
        asked = others.asked;
        later = λ c q. ground (arith, find-assign k c task s.tasks, others.later c, h.counted);
      }

  -- The task of a completion ends, whose canceler is gone.
  pub stop_task :
      (id k : ℕ) (s : Awaits kj)
      → IsAnswered s
      → task_id s k ≡ some id
      → find id s.active_cancelers ≡ none
      → IsAnsweredBut (λ c. k == c) (record s { tasks = erase k s.tasks })
  unfolding awaited_as is_idle
  stop_task id k s h own gone = record {
    active = λ j c q. elim (Bool-cases (k == c)) [
      | inl e ↦ absurd (ground (arith, own, gone, h.active j c q))
      | inr e ↦ ground (arith, find-erase k c s.tasks, h.active j c q)
    ];
    answered = λ c a n q. h.answered c a refl q ∙ ground (arith, find-erase k c s.tasks);
    idle = λ c q. ground (arith, find-erase k c s.tasks);
    asked = h.asked;
    later = λ c q. ground (arith, find-erase k c s.tasks, h.later c);
  }
