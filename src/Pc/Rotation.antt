-- ===== src/Pc/Rotation.antt =====
-- `find_next_task`: time slices, levels and the order of the queues.
use os_final_program.Base.{
  ℕ, ◌+◌, ◌≤◌, ◌<◌, ◌≡◌, refl, sym, ◌≢◌, ◌⊎◌, inl, inr, true, false, List, [], ◌∷◌, ◌++◌, arith,
  ltb, ◌==◌, ltb→lt, ==_refl, ==_ne, Bool-cases, sub32, word_max,
}
use native.Mathlib.Decide.{ℕ_discrete}
use os_final_program.Pc.Queues.{Task, Procs, unlink, time_slice, remove_sched, add_sched_back}
use os_final_program.Pc.Scheduler.{charge, requeue, find_next_task}
use os_final_program.Pc.Unlink.{Without, unlink-Without}
use os_final_program.Pc.QueueLaws.{
  Levels, remove_sched-Levels, remove_sched-Idle, put_task-Levels, add_sched_back-Levels,
}

charge-level :
    (t : Task) → (t.sched_lv ≤ (charge t).sched_lv) × ((charge t).sched_lv ≤ t.sched_lv + 1)
unfolding charge
charge-level t = ground arith

requeue-Levels : (s : Procs) → 1 ≤ (s.task s.current).sched_lv → Levels s → Levels (requeue s)
unfolding requeue remove_sched
requeue-Levels s l v = elim (Bool-cases (ltb (s.task c).sched_lv 3)) [
  | inr n ↦ rw n v
  | inl h ↦
      let k : (s.task c).sched_lv < 3 = ltb→lt _ _ h in
      rw h (
        add_sched_back-Levels c (charge (s.task c)).sched_lv _ (rw (==_refl c))
          (omega (arith, charge-level (s.task c))) (omega (arith, charge-level (s.task c)))
          (put_task-Levels c (charge (s.task c)) (remove_sched c s) (remove_sched-Idle c s)
            (remove_sched-Levels c s v)))
]
  where
    c : ℕ
    c = s.current

-- Where every task stands on queues of its own level only, the choice of the next task keeps that so.
pub find_next_task-Levels : (s : Procs) → Levels s → Levels (find_next_task s).1
unfolding find_next_task
find_next_task-Levels s v = elim (Bool-cases ((s.task s.current).sched_lv == 0)) [
  | inl z ↦ rw z v
  | inr n ↦ rw n (requeue-Levels s (ground arith) v)
]

-- What the choice of the next task makes of a task that runs at level 1 or 2.
pub record Charged (s s' : Procs) : Type 0 where
  pub charged :
      (((s.task s.current).time_cnt ≢ 1)
        × ((s'.task s.current).sched_lv ≡ (s.task s.current).sched_lv)
        × ((s'.task s.current).time_cnt ≡ sub32 (s.task s.current).time_cnt 1))
      ⊎ (((s.task s.current).time_cnt ≡ 1)
          × ((s'.task s.current).sched_lv ≡ (s.task s.current).sched_lv + 1)
          × ((s'.task s.current).time_cnt ≡ time_slice ((s.task s.current).sched_lv + 1)))
  pub at_tail :
      (rest : List ℕ) × (s'.back (s'.task s.current).sched_lv ≡ rest ++ (s.current ∷ []))
      × Without s.current (s.back (s'.task s.current).sched_lv) rest
  pub others : (i : ℕ) → i ≢ (s'.task s.current).sched_lv → Without s.current (s.back i) (s'.back i)
  pub same_tasks : (t : ℕ) → t ≢ s.current → s'.task t ≡ s.task t
  pub fore : Without s.current s.sched s'.sched
  pub waiters : Without s.current s.wait s'.wait
  pub ended : Without s.current s.exited s'.exited
  pub same_list : s'.tasks ≡ s.tasks
  pub same_current : s'.current ≡ s.current
  pub same_pids : s'.pids ≡ s.pids

-- A task that runs at level 1 or 2 with a time count of a word is charged one unit; with the last unit
-- it drops to the next level and gets that level's time slice. It goes to the tail of its level's
-- queue; the other background queues, the foreground queue, the wait list and the list of ended tasks
-- lose it and nothing else, and no other task, nor the list of tasks, the current task or the pids
-- change.
pub find_next_task-Charged :
    (s : Procs)
    → 1 ≤ (s.task s.current).sched_lv
    → (s.task s.current).sched_lv < 3
    → (s.task s.current).time_cnt ≤ word_max
    → Charged s (find_next_task s).1
unfolding find_next_task requeue add_sched_back remove_sched
find_next_task-Charged s l h w =
    rw (z0, z3, small)
      (record {
        charged = rw (==_refl c) charge_cases;
        at_tail =
            rw (==_refl c, ==_refl t'.sched_lv)
              (unlink c (s.back t'.sched_lv), refl, unlink-Without c _);
        others = λ i.
            rw (==_refl c)
              (λ n. rw (==_ne t'.sched_lv i (λ e. n (sym e))) (unlink-Without c (s.back i)));
        same_tasks = λ u n. rw (==_ne c u (λ e. n (sym e)));
        fore = unlink-Without c s.sched;
        waiters = unlink-Without c s.wait;
        ended = unlink-Without c s.exited;
        same_list = refl;
        same_current = refl;
        same_pids = refl;
      })
  where
    c : ℕ
    c = s.current

    t : Task
    t = s.task c

    t' : Task
    t' = charge t

    z0 : (t.sched_lv == 0) ≡ false
    z0 = ground arith

    z3 : ltb t.sched_lv 3 ≡ true
    z3 = ground arith

    small : ltb 3 t'.sched_lv ≡ false
    small = ground (arith, charge-level t)

    charge_cases :
        ((t.time_cnt ≢ 1) × (t'.sched_lv ≡ t.sched_lv) × (t'.time_cnt ≡ sub32 t.time_cnt 1))
        ⊎ ((t.time_cnt ≡ 1)
            × (t'.sched_lv ≡ t.sched_lv + 1)
            × (t'.time_cnt ≡ time_slice (t.sched_lv + 1)))
    charge_cases = elim (ℕ_discrete t.time_cnt 1) [
      | yes e ↦ inr (e, (unfold charge in ground arith), (unfold charge in ground arith))
      | no n ↦ inl (n, (unfold charge in ground arith), (unfold charge in ground arith))
    ]
