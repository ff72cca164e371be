-- ===== src/Pc/Steps.antt =====
-- The scheduling invariant through the operations of kernel/pc/pc.c.
use os_final_program.Base.{
  ℕ, ◌≡◌, refl, sym, ap, subst, inl, inr, Bool, false, Option, none, some, arith, ◌==◌, ==_refl,
  Bool-cases,
}
use os_final_program.Pc.Queues.{
  find_in_tasks, Procs, Task, Context, s_terminal, waiting_for, add_tail, remove_sched, add_exited,
  add_wait, add_task, add_sched, add_sched_back, put_task,
}
use os_final_program.Pc.Invariant.{
  rebuild, Queued, find_next_task-Queued, set_state-Queued, wakeup_parent-Queued, put_task-Bounded,
}
use os_final_program.Pc.QueueLaws.{
  put_task-Levels, add_sched-Levels, add_sched_back-Levels, Levels, Idle, remove_sched-Levels,
}
use os_final_program.Pid.{pid_check, pid_free}
use os_final_program.Pc.Life.{
  set_state, wakeup_parent, kill_found, leave_to, wait_for, suspend, pc_kill, pc_exit, enter_task,
}
use os_final_program.Pc.Scheduler.{find_next_task}

-- Other fields of the table do not matter.
pub same-Queued :
    (s s' : Procs) → s'.task ≡ s.task → s'.sched ≡ s.sched → s'.back ≡ s.back → Queued s → Queued s'
same-Queued s s' a b c q = record {
  levels = rebuild s s' a b c q.levels;
  bounded = λ t. rw a (q.bounded t);
}

pub remove_sched-Queued : (c : ℕ) (s : Procs) → Queued s → Queued (remove_sched c s)
unfolding remove_sched
remove_sched-Queued c s q = record {
  levels = remove_sched-Levels c s q.levels;
  bounded = q.bounded;
}

leave_to-Queued :
    (c : ℕ) (r : Option ℕ × Procs) (s' : Procs) → Queued r.1 → leave_to c r ≡ some s' → Queued s'
unfolding leave_to add_exited
leave_to-Queued c (none, s) s' q e = cc
leave_to-Queued c (some t, s) s' q e =
    let z : record (remove_sched c s) {
      exited = add_tail c (remove_sched c s).exited;
      pids = (pid_free (remove_sched c s).pids ((remove_sched c s).task c).pid).1;
      current = t;
    }
        ≡ s' =
      cc in
    same-Queued (remove_sched c s) s' (ap (λ k. k.task) (sym z)) (ap (λ k. k.sched) (sym z))
      (ap (λ k. k.back) (sym z)) (remove_sched-Queued c s q)

kill_found-Queued :
    (s s' : Procs) (pid : ℕ) (b : Bool) (o : Option ℕ)
    → Queued s
    → kill_found s pid o ≡ some (b, s')
    → Queued s'
unfolding kill_found add_exited
kill_found-Queued s s' pid b none q e = cc
kill_found-Queued s s' pid b (some t) q e =
    let r : Procs = remove_sched t (set_state t s_terminal s) in
    let z : record r { exited = add_tail t r.exited; pids = (pid_free r.pids pid).1 } ≡ s' = cc in
    same-Queued r s' (ap (λ k. k.task) (sym z)) (ap (λ k. k.sched) (sym z))
      (ap (λ k. k.back) (sym z)) (remove_sched-Queued t _ (set_state-Queued t s_terminal s q))

suspend-Queued :
    (c : ℕ) (r : Option ℕ × Procs) (s' : Procs) → Queued r.1 → suspend c r ≡ some s' → Queued s'
unfolding suspend add_wait
suspend-Queued c (none, s) s' q e = cc
suspend-Queued c (some t, s) s' q e =
    let z : record (remove_sched c s) { wait = add_tail c (remove_sched c s).wait; current = t }
        ≡ s' =
      cc in
    same-Queued (remove_sched c s) s' (ap (λ k. k.task) (sym z)) (ap (λ k. k.sched) (sym z))
      (ap (λ k. k.back) (sym z)) (remove_sched-Queued c s q)

pub some_same : {A : Type 0} → (s s' : A) → some s ≡ some s' → s ≡ s'
some_same s s' e = cc

pub options_differ : {A : Type 0} → (s : A) → none ≡ some s → ⊥
options_differ s e = cc

pub wait_for-Queued :
    (s s' : Procs) (pid : ℕ) (o : Option ℕ) → Queued s → wait_for s pid o ≡ some s' → Queued s'
unfolding wait_for
wait_for-Queued s s' pid none q e = let z : s ≡ s' = cc in subst Queued z q
wait_for-Queued s s' pid (some t) q e =
    elim (Bool-cases ((s.task t).parent == (s.task s.current).pid)) [
      | inr n ↦ subst Queued (some_same s s' (rw n at e)) q
      | inl p ↦
          suspend-Queued s.current (find_next_task (set_state s.current (waiting_for pid) s)) s'
            (find_next_task-Queued _ (set_state-Queued s.current (waiting_for pid) s q)) (rw p at e)
    ]

pub pc_kill-Queued :
    (s s' : Procs) (pid : ℕ) (b : Bool) → Queued s → pc_kill pid s ≡ some (b, s') → Queued s'
unfolding pc_kill
pc_kill-Queued s s' pid b q e = elim (Bool-cases (pid == 0)) [
  | inl z ↦ refused (rw z at e)
  | inr z ↦ elim (Bool-cases (pid == 1)) [
    | inl y ↦ refused (rw (z, y) at e)
    | inr y ↦ elim (Bool-cases (pid == (s.task s.current).pid)) [
      | inl x ↦ refused (rw (z, y, x) at e)
      | inr x ↦ elim (Bool-cases (pid_check s.pids pid)) [
        | inr w ↦ refused (rw (z, y, x, w) at e)
        | inl w ↦ kill_found-Queued s s' pid b (find_in_tasks s pid) q (rw (z, y, x, w) at e)
      ]
    ]
  ]
]
  where
    refused : ◌≡◌ {A = Option (Bool × Procs)} (some (false, s)) (some (b, s')) → Queued s'
    refused k = subst Queued (ap (λ r. r.1) (some_same (false, s) (b, s') k)) q

pub pc_exit-Queued : (s s' : Procs) → Queued s → pc_exit s ≡ some s' → Queued s'
unfolding pc_exit
pc_exit-Queued s s' q e = elim (Bool-cases ((s.task s.current).pid == 0)) [
  | inl z ↦ absurd (options_differ s' (rw z at e))
  | inr n ↦
      leave_to-Queued s.current (find_next_task (wakeup_parent (set_state s.current s_terminal s)))
        s'
        (find_next_task-Queued _
          (wakeup_parent-Queued _ (set_state-Queued s.current s_terminal s q)))
        (rw n at e)
]

listed-Levels :
    (new : ℕ) (t : Task) (s : Procs)
    → Idle new s
    → Levels s
    → Levels (add_task new (record s { task = put_task s.task new t }))
unfolding add_task
listed-Levels new t s i v =
    rebuild (record s { task = put_task s.task new t }) _ refl refl refl
      (put_task-Levels new t s i v)

listed-level :
    (new : ℕ) (t : Task) (s : Procs)
    → ((add_task new (record s { task = put_task s.task new t })).task new).sched_lv ≡ t.sched_lv
unfolding add_task
listed-level new t s = rw (==_refl new)

-- A table without the pointer that `kmalloc` returned.
pub enter_task-Queued :
    (s : Procs) (new newpid mm : ℕ) (ctx : Context)
    → Idle new s
    → Queued s
    → Queued (enter_task s new newpid mm ctx)
unfolding enter_task add_sched add_sched_back add_task
enter_task-Queued s new newpid mm ctx i q = elim (Bool-cases (newpid == 1)) [
  | inl z ↦ rw z (record {
    levels = add_sched-Levels new _ (listed-level new _ s) (listed-Levels new _ s i q.levels);
    bounded = put_task-Bounded s new _ (ground arith) q.bounded;
  })
  | inr n ↦ rw n (record {
    levels =
        add_sched_back-Levels new 1 _ (listed-level new _ s) (omega arith) (omega arith)
          (listed-Levels new _ s i q.levels);
    bounded = put_task-Bounded s new _ (ground arith) q.bounded;
  })
]
