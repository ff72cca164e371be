-- ===== src/Pc/Reach.antt =====
-- The process table as a state machine, and what holds in every table that it reaches.
use os_final_program.Base.{
  ℕ, ◌≤◌, ◌≡◌, refl, ap, subst, inl, inr, Bool, true, Option, none, some, List, [], ◌∷◌, arith,
  ◌==◌, Bool-cases, contains,
}
use os_final_program.Pid.{Pid, pid_alloc, AllocResult}
use os_final_program.Pc.QueueLaws.{same_level-Levels, Idle}
use os_final_program.Pc.Queues.{
  copy_context, Procs, Task, Context, s_terminal, remove_sched, remove_task, put_task,
}
use os_final_program.Pc.Life.{find_live, waitpid, pc_kill, pc_exit, task_create, created, init_pc}
use os_final_program.Pc.Scheduler.{
  find_next_task, switch_to, schedule_cleared, pc_schedule, clear_exited, clear_from,
}
use os_final_program.Pc.Invariant.{Queued, find_next_task-Queued, put_task-Bounded}
use os_final_program.Pc.Steps.{
  same-Queued, remove_sched-Queued, wait_for-Queued, pc_kill-Queued, pc_exit-Queued,
  enter_task-Queued, some_same, options_differ,
}

created-Queued :
    (s : Procs) (new mm : ℕ) (ctx : Context) (r : AllocResult × Pid)
    → Idle new s
    → Queued s
    → Queued (created s new mm ctx r).1
unfolding created
created-Queued s new mm ctx (AllocResult.no_pid, p) i q = q
created-Queued s new mm ctx (AllocResult.out_of_bounds, p) i q = q
created-Queued s new mm ctx (AllocResult.allocated n, p) i q = elim (Bool-cases (new == 0)) [
  | inl z ↦ rw z (same-Queued s _ refl refl refl q)
  | inr z ↦ rw z (
      enter_task-Queued (record s { pids = p }) new n mm ctx
        (record { off_fore = i.off_fore; off_back = i.off_back })
        (same-Queued s _ refl refl refl q))
]

clear_from-Queued : (ts : List ℕ) (s s' : Procs) → Queued s → clear_from ts s ≡ some s' → Queued s'
unfolding clear_from
clear_from-Queued [] s s' q e = subst Queued (some_same s s' e) q
clear_from-Queued (t ∷ ts) s s' q e = elim (Bool-cases ((s.task t).state == s_terminal)) [
  | inr n ↦ absurd (options_differ s' (rw n at e))
  | inl z ↦
      clear_from-Queued ts _ s'
        (unfold remove_task in
          same-Queued (remove_sched t s) _ refl refl refl (remove_sched-Queued t s q))
        (rw z at e)
]

switch_to-Queued :
    (ctx ctx' : Context) (r : Option ℕ × Procs) (s' : Procs)
    → Queued r.1
    → switch_to ctx r ≡ some (ctx', s')
    → Queued s'
unfolding switch_to
switch_to-Queued ctx ctx' (none, s) s' q e = cc
switch_to-Queued ctx ctx' (some t, s) s' q e = elim (Bool-cases (t == s.current)) [
  | inl z ↦ absurd (options_differ (ctx', s') (rw z at e))
  | inr n ↦
      subst Queued
        (ap (λ r. r.1)
          (some_same (copy_context (f t).context ctx, record s { task = f; current = t }) (ctx', s')
            (rw n at e)))
        (same-Queued (record s { task = f }) _ refl refl refl
          (record {
            levels = same_level-Levels s.current old s refl q.levels;
            bounded = put_task-Bounded s s.current old (q.bounded s.current) q.bounded;
          }))
]
  where
    old : Task
    old = record (s.task s.current) { context = copy_context ctx (s.task s.current).context }

    f : ℕ → Task
    f = put_task s.task s.current old

schedule_cleared-Queued :
    (ctx ctx' : Context) (o : Option Procs) (s' : Procs)
    → ((s : Procs) → o ≡ some s → Queued s)
    → schedule_cleared ctx o ≡ some (ctx', s')
    → Queued s'
unfolding schedule_cleared
schedule_cleared-Queued ctx ctx' none s' q e = cc
schedule_cleared-Queued ctx ctx' (some s) s' q e =
    switch_to-Queued ctx ctx' (find_next_task s) s' (find_next_task-Queued s (q s refl)) e

-- One step of the kernel: the timer interrupt, a system call of the current process, or the shell's kill.
-- A new process has a pointer that is on no queue.
pub data Step (s : Procs) : Procs → Type 0 where
  tick : (ctx ctx' : Context) (s' : Procs) → pc_schedule ctx s ≡ some (ctx', s') → Step s s'
  create : (new mm : ℕ) (ctx : Context) → Idle new s → Step s (task_create s new mm ctx).1
  wait : (pid : ℕ) (s' : Procs) → waitpid pid s ≡ some s' → Step s s'
  kill : (pid : ℕ) (b : Bool) (s' : Procs) → pc_kill pid s ≡ some (b, s') → Step s s'
  exit : (s' : Procs) → pc_exit s ≡ some s' → Step s s'

Step-Queued : (s s' : Procs) → Step s s' → Queued s → Queued s'
unfolding pc_schedule clear_exited waitpid task_create
Step-Queued s _ (tick ctx ctx' s' e) q =
    schedule_cleared-Queued ctx ctx' (clear_exited s) s' (λ k h. clear_from-Queued s.exited s k q h)
      e
Step-Queued s _ (create new mm ctx i) q = created-Queued s new mm ctx (pid_alloc s.pids) i q
Step-Queued s _ (wait pid s' e) q = wait_for-Queued s s' pid (find_live s.task pid s.tasks) q e
Step-Queued s _ (kill pid b s' e) q = pc_kill-Queued s s' pid b q e
Step-Queued s _ (exit s' e) q = pc_exit-Queued s s' q e

-- Steps one after the other.
pub data Run (s : Procs) : Procs → Type 0 where
  start : Run s s
  then_step : (m s' : Procs) → Run s m → Step m s' → Run s s'

run-Queued : (s s' : Procs) → Run s s' → Queued s → Queued s'
run-Queued s _ start q = q
run-Queued s _ (then_step m s' r t) q = Step-Queued m s' t (run-Queued s m r q)

init_pc-Queued :
    (memory : ℕ → Task) (idle : ℕ) (ctx : Context) (pids : Pid)
    → ((t : ℕ) → (memory t).sched_lv ≤ 3)
    → Queued (init_pc memory idle ctx pids)
unfolding init_pc
init_pc-Queued memory idle ctx pids b = record {
  levels = record { fore = λ t h. rw (contains_one idle t h); back = λ i t h. cc };
  bounded = λ t. elim (Bool-cases (idle == t)) [ inl z ↦ rw z (omega arith) | inr n ↦ rw n (b t) ];
}
  where
    contains_one : (c t : ℕ) → contains (c ∷ []) t ≡ true → (c == t) ≡ true
    contains_one c t h = ground arith

-- In every table that the kernel reaches by its steps from a table with one idle task, in a memory whose
-- other tasks have levels up to 3, a task that is on a scheduling queue is on that of its own
-- level, and all levels are 3 at most.
pub run-keeps_levels :
    (memory : ℕ → Task) (idle : ℕ) (ctx : Context) (pids : Pid) (s : Procs)
    → ((t : ℕ) → (memory t).sched_lv ≤ 3)
    → Run (init_pc memory idle ctx pids) s
    → Queued s
run-keeps_levels memory idle ctx pids s b r =
    run-Queued (init_pc memory idle ctx pids) s r (init_pc-Queued memory idle ctx pids b)
