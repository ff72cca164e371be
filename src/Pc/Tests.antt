-- ===== src/Pc/Tests.antt =====
-- The theorems on processes at concrete tables.
use os_final_program.Base.{
  ℕ, ◌≡◌, refl, sym, subst, ◌⊎◌, inl, inr, true, false, none, some, [], ◌∷◌, arith, ◌==◌,
  if◌then◌else◌, ==_iff, Bool-cases,
}
use os_final_program.Pid.{init_pid}
use os_final_program.Pc.Queues.{Procs, Task, s_terminal, waiting_for, put_task, find_in_tasks}
use os_final_program.Pc.Life.{set_state, wakeup_parent, init_pc, pc_exit, pc_kill, task_create}
use os_final_program.Pc.Scheduler.{find_next_task}
use os_final_program.Pc.QueueLaws.{Levels, Idle}
use os_final_program.Pc.Invariant.{Queued}
use os_final_program.Pc.Rotation.{Charged, find_next_task-Charged}
use os_final_program.Pc.Reach.{Run, start, then_step, create, run-keeps_levels}
use os_final_program.Pc.Waking.{WaitsFor}
use os_final_program.Pc.Endings.{Ready}
use os_final_program.Pc.Exit.{pc_exit-wakes}
use os_final_program.Pc.Leaving.{Ended}
use os_final_program.Pc.Kill.{Refused, Accepted, Killed, pc_kill-cases}

abbrev task_of : ℕ → ℕ → ℕ → ℕ → ℕ → Task
task_of pid parent state time_cnt lv = record {
  pid = pid;
  parent = parent;
  asid = pid;
  state = state;
  time_cnt = time_cnt;
  sched_lv = lv;
  context = [];
  mm = 0;
  task_files = 0;
}

-- The idle task at 1, the shell at 2, which waits for the task with pid 5 at 3, the current one.
abbrev tasks_of : ℕ → Task
tasks_of =
    put_task (put_task (λ t. task_of 0 0 1 0 0) 2 (task_of 1 0 (waiting_for 5) 7 0)) 3
      (task_of 5 1 1 1 1)

abbrev table : Procs
table = record {
  task = tasks_of;
  tasks = 1 ∷ 2 ∷ 3 ∷ [];
  sched = 1 ∷ [];
  back = λ i. if i == 1 then 3 ∷ [] else [];
  wait = 2 ∷ [];
  exited = [];
  current = 3;
  pids = init_pid;
}

table-Levels : Levels table
table-Levels = record {
  fore = λ t h. elim (Bool-cases (1 == t)) [
    | inl e ↦ subst (λ u. (table.task u).sched_lv ≡ 0) ((==_iff 1 t).0 e) refl
    | inr n ↦ absurd (cc (rw n at h))
  ];
  back = λ i t h. elim (Bool-cases (i == 1)) [
    | inr n ↦ absurd (cc (rw n at h))
    | inl e ↦ elim (Bool-cases (3 == t)) [
      | inr k ↦ absurd (cc (rw (e, k) at h))
      | inl k ↦ rw ((==_iff i 1).0 e, sym ((==_iff 3 t).0 k)) (refl, omega arith, omega arith)
    ]
  ];
}

find_next_task-Charged_example : Charged table (find_next_task table).1
find_next_task-Charged_example =
    find_next_task-Charged table (omega arith) (omega arith) (omega arith)

-- The idle task runs.
abbrev idling : Procs
idling = record table { current = 1 }

shell_waiting : WaitsFor table table.current 2
shell_waiting = record { on_wait = refl; is_parent = refl; waits = refl }

pc_exit-wakes_example :
    (s' : Procs) × (pc_exit table ≡ some s')
    × Ended table.current table s'
    × ((find_next_task (wakeup_parent (set_state table.current s_terminal table))).0
        ≡ some s'.current)
    × ((q : ℕ) × WaitsFor table table.current q × Ready q s')
pc_exit-wakes_example =
    pc_exit-wakes table 2 1 table-Levels (λ e. omega (arith, e)) refl refl shell_waiting

pc_kill-cases_example :
    (Refused idling 5 × (pc_kill 5 idling ≡ some (false, idling)))
    ⊎ (Accepted idling 5 × (find_in_tasks idling 5 ≡ none) × (pc_kill 5 idling ≡ none))
    ⊎ (Accepted idling 5
        × ((t : ℕ) × (find_in_tasks idling 5 ≡ some t)
            × ((s' : Procs) × (pc_kill 5 idling ≡ some (true, s')) × Killed t 5 idling s')))
pc_kill-cases_example = pc_kill-cases idling 5

-- The kernel after `init_pc`.
abbrev memory : ℕ → Task
memory t = task_of 0 0 0 0 0

abbrev fresh : Procs
fresh = init_pc memory 1 [] init_pid

fresh-Idle : Idle 2 fresh
unfolding init_pc
fresh-Idle = record { off_fore = refl; off_back = λ i. refl }

one_process : Run fresh (task_create fresh 2 0 []).1
one_process = then_step fresh _ start (create 2 0 [] fresh-Idle)

run-keeps_levels_example : Queued (task_create fresh 2 0 []).1
run-keeps_levels_example =
    run-keeps_levels memory 1 [] init_pid (task_create fresh 2 0 []).1 (λ t. omega arith)
      one_process
