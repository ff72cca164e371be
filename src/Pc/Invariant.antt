-- ===== src/Pc/Invariant.antt =====
-- The scheduling invariant through `wakeup_parent` and `find_next_task` of kernel/pc/pc.c.
use os_final_program.Base.{
  ℕ, ◌≤◌, ◌<◌, ◌≡◌, refl, subst, inl, inr, true, false, Option, none, some, arith, ltb, ◌==◌,
  ltb→lt, ==_iff, Bool-cases, contains,
}
use os_final_program.Pc.Scheduler.{find_next_task, charge, requeue}
use os_final_program.Pc.Queues.{
  add_sched_back, Procs, s_ready, remove_sched, add_sched, Task, put_task,
}
use os_final_program.Pc.Rotation.{find_next_task-Levels}
use os_final_program.Pc.Life.{set_state, find_waiter, wake, wake_found, wakeup_parent}
use os_final_program.Pc.QueueLaws.{
  Levels, remove_sched-Levels, set_state-Levels, add_sched-Levels, put_queue-Levels,
}

-- Other fields of the table do not matter to the levels.
pub rebuild :
    (s s' : Procs) → s'.task ≡ s.task → s'.sched ≡ s.sched → s'.back ≡ s.back → Levels s → Levels s'
rebuild s s' a b c v = record {
  fore = λ t h. rw a (v.fore t (rw b at h));
  back = λ i t h. rw a (v.back i t (subst (λ k. contains (k i) t ≡ true) c h));
}

wake-Levels : (t : ℕ) (s : Procs) → (s.task t).sched_lv ≤ 3 → Levels s → Levels (wake t s)
unfolding wake
wake-Levels t s l v = elim (Bool-cases ((s.task t).sched_lv == 0)) [
  | inl z ↦ rw z (
      set_state-Levels t s_ready (add_sched t (remove_sched t s)) (
        add_sched-Levels t (remove_sched t s) (unfold remove_sched in (==_iff _ 0).0 z)
          (remove_sched-Levels t s v)))
  | inr n ↦ rw n (
      set_state-Levels t s_ready _ (
        put_queue-Levels t (s.task t).sched_lv _ (remove_sched t s) (unfold remove_sched in refl)
          (ground arith) l (λ u. ground arith) (remove_sched-Levels t s v)))
]

-- Every task has a level up to 3.
abbrev pub Bounded : Procs → Type 0
Bounded s = (t : ℕ) → (s.task t).sched_lv ≤ 3

pub wakeup_parent-Levels : (s : Procs) → Bounded s → Levels s → Levels (wakeup_parent s)
unfolding wakeup_parent
wakeup_parent-Levels s b v =
    go (find_waiter s.task (s.task s.current).parent (s.task s.current).pid s.wait)
  where
    go : (o : Option ℕ) → Levels (wake_found s o)
    go none = unfold wake_found in v
    go (some t) = unfold wake_found in wake-Levels t s (b t) v

pub put_task-Bounded :
    (s : Procs) (c : ℕ) (t : Task)
    → t.sched_lv ≤ 3
    → Bounded s
    → (u : ℕ) → (put_task s.task c t u).sched_lv ≤ 3
put_task-Bounded s c t l b u = elim (Bool-cases (c == u)) [ inl e ↦ rw e l | inr n ↦ rw n (b u) ]

-- Every task stands on the queues of its own level only, and its level is 3 at most.
pub record Queued (s : Procs) : Type 0 where
  pub levels : Levels s
  pub bounded : Bounded s

charge-Bounded : (t : Task) → t.sched_lv < 3 → (charge t).sched_lv ≤ 3
unfolding charge
charge-Bounded t l = ground arith

pub find_next_task-Queued : (s : Procs) → Queued s → Queued (find_next_task s).1
unfolding find_next_task requeue
find_next_task-Queued s q = record {
  levels = find_next_task-Levels s q.levels;
  bounded = elim (Bool-cases ((s.task s.current).sched_lv == 0)) [
    | inl z ↦ rw z q.bounded
    | inr n ↦ rw n (elim (Bool-cases (ltb (s.task s.current).sched_lv 3)) [
      | inr z ↦ rw z q.bounded
      | inl z ↦ rw z (unfold add_sched_back in moved (ltb→lt _ _ z))
    ])
  ];
}
  where
    c : ℕ
    c = s.current

    small : (s.task c).sched_lv < 3 → ltb 3 (charge (s.task c)).sched_lv ≡ false
    small l = let k : (charge (s.task c)).sched_lv ≤ 3 = charge-Bounded (s.task c) l in ground arith

    moved :
        (s.task c).sched_lv < 3
        → (u : ℕ)
        → ((add_sched_back c
              (charge (s.task c)).sched_lv
              (record (remove_sched c s) { task = put_task s.task c (charge (s.task c)) })).task
            u).sched_lv
          ≤ 3
    moved l =
        rw (small l, add_sched_back)
          (put_task-Bounded s c (charge (s.task c)) (charge-Bounded _ l) q.bounded)

pub set_state-Queued : (c v : ℕ) (s : Procs) → Queued s → Queued (set_state c v s)
set_state-Queued c v s q = record {
  levels = set_state-Levels c v s q.levels;
  bounded = put_task-Bounded s c _ (q.bounded c) q.bounded;
}

pub wakeup_parent-Queued : (s : Procs) → Queued s → Queued (wakeup_parent s)
unfolding wakeup_parent
wakeup_parent-Queued s q = record {
  levels = wakeup_parent-Levels s q.bounded q.levels;
  bounded = go (find_waiter s.task (s.task s.current).parent (s.task s.current).pid s.wait);
}
  where
    go : (o : Option ℕ) → Bounded (wake_found s o)
    go none = unfold wake_found in q.bounded
    go (some t) =
        unfold wake_found wake remove_sched add_sched in
        elim (Bool-cases ((s.task t).sched_lv == 0)) [
          | inl z ↦ rw z (put_task-Bounded s t _ (q.bounded t) q.bounded)
          | inr z ↦ rw z (put_task-Bounded s t _ (q.bounded t) q.bounded)
        ]
