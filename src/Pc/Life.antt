-- ===== src/Pc/Life.antt =====
-- The life of a process in kernel/pc/pc.c: `init_pc`, `task_create`, `waitpid`, `wakeup_parent`, `pc_kill` and
-- `pc_exit`. The address space and the open file that a task gives back are the calls `mm_delete`
-- and `task_files_delete`, which change nothing here.
use os_final_program.Base.{
  ℕ, Bool, true, false, not, ◌&&◌, Option, none, some, List, [], ◌∷◌, ◌==◌, if◌then◌else◌, word_max,
}
use os_final_program.Pid.{Pid, pid_check, pid_alloc, pid_free, AllocResult}
use os_final_program.Pc.Queues.{
  Context, Task, Procs, s_ready, s_terminal, waiting_for, idle_pid, init_id, put_task, put_queue,
  time_slice, remove_sched, add_wait, add_exited, add_task, add_sched, add_sched_back,
  find_in_tasks,
}
use os_final_program.Pc.Scheduler.{find_next_task}

abbrev pub set_state : ℕ → ℕ → Procs → Procs
set_state t v s = record s { task = put_task s.task t (record (s.task t) { state = v }) }

-- The idle task at pointer `idle`, alone in the table. `pids` is the bitmap after `init_pid`.
unfoldable pub init_pc : (ℕ → Task) → ℕ → Context → Pid → Procs
unfolding add_sched add_task
init_pc memory idle ctx pids =
    let t : Task = record {
      pid = idle_pid;
      parent = idle_pid;
      asid = idle_pid;
      state = s_ready;
      time_cnt = word_max;
      sched_lv = 0;
      context = ctx;
      mm = 0;
      task_files = 0;
    } in
    add_sched idle (
      add_task idle (record {
        task = put_task memory idle t;
        tasks = [];
        sched = [];
        back = λ i. [];
        wait = [];
        exited = [];
        current = idle;
        pids = pids;
      }))

-- The new task at pointer `new` with its pid: the shell runs in the foreground, all others start at level 1.
unfoldable pub enter_task : Procs → ℕ → ℕ → ℕ → Context → Procs
unfolding add_task add_sched add_sched_back
enter_task s new newpid mm ctx =
    let foreground = newpid == init_id in
    let t : Task = record {
      pid = newpid;
      parent = (s.task s.current).pid;
      asid = newpid;
      state = s_ready;
      time_cnt = if foreground then word_max else time_slice 1;
      sched_lv = if foreground then 0 else 1;
      context = ctx;
      mm = mm;
      task_files = 0;
    } in
    let listed = add_task new (record s { task = put_task s.task new t }) in
    if foreground then add_sched new listed else add_sched_back new 1 listed

-- What `task_create` answers: the pid, the result 1, or nothing, as `pid_alloc` has read behind the bitmap. What
-- the kernel does after such a read is not followed: the processes stay as they were.
pub data Creation : Type 0 where
  new_process : ℕ → Creation
  result_1 : Creation
  read_out_of_bounds : Creation

-- `new` is what `kmalloc` returns, `mm` what `mm_create` returns (0 for a kernel thread), `ctx` the registers
-- of the entry point, its arguments and its stack.
unfoldable pub created : Procs → ℕ → ℕ → Context → AllocResult × Pid → Creation × Procs
unfolding enter_task
created s new mm ctx (AllocResult.no_pid, p) = (result_1, s)
created s new mm ctx (AllocResult.out_of_bounds, p) = (read_out_of_bounds, s)
created s new mm ctx (AllocResult.allocated newpid, p) =
    if new == 0
    then (result_1, record s { pids = (pid_free p newpid).1 })
    else (new_process newpid, enter_task (record s { pids = p }) new newpid mm ctx)

unfoldable pub task_create : Procs → ℕ → ℕ → Context → Creation × Procs
unfolding created
task_create s new mm ctx = created s new mm ctx (pid_alloc s.pids)

-- The first task with the pid that has not ended.
unfoldable pub find_live : (ℕ → Task) → ℕ → List ℕ → Option ℕ
find_live f pid [] = none
find_live f pid (t ∷ ts) =
    if ((f t).pid == pid) && not ((f t).state == s_terminal) then some t else find_live f pid ts

-- The current task leaves the processor to `torun`, and waits.
unfoldable pub suspend : ℕ → Option ℕ × Procs → Option Procs
suspend cur (none, s) = none
suspend cur (some torun, s) = some (record (add_wait cur (remove_sched cur s)) { current = torun })

unfoldable pub wait_for : Procs → ℕ → Option ℕ → Option Procs
unfolding suspend add_wait remove_sched find_next_task
wait_for s pid none = some s
wait_for s pid (some t) =
    if (s.task t).parent == (s.task s.current).pid
    then suspend s.current (find_next_task (set_state s.current (waiting_for pid) s))
    else some s

-- The table when the next task runs; `none` if there is none to run.
unfoldable pub waitpid : ℕ → Procs → Option Procs
unfolding wait_for find_live
waitpid pid s = wait_for s pid (find_live s.task pid s.tasks)

-- The first waiting task that is the parent `ppid` and waits for `pid`.
unfoldable pub find_waiter : (ℕ → Task) → ℕ → ℕ → List ℕ → Option ℕ
find_waiter f ppid pid [] = none
find_waiter f ppid pid (t ∷ ts) =
    if ((f t).pid == ppid) && ((f t).state == waiting_for pid)
    then some t
    else find_waiter f ppid pid ts

unfoldable pub wake : ℕ → Procs → Procs
unfolding remove_sched add_sched
wake t s =
    let lv = (s.task t).sched_lv in
    let s' = remove_sched t s in
    set_state t s_ready (
      if lv == 0
      then add_sched t s'
      else record s' { back = put_queue s'.back lv (t ∷ s'.back lv) })

unfoldable pub wake_found : Procs → Option ℕ → Procs
wake_found s none = s
wake_found s (some t) = wake t s

-- A parent that waits for the current task is ready again, in front of its level.
unfoldable pub wakeup_parent : Procs → Procs
unfolding wake_found wake find_waiter
wakeup_parent s =
    let c = s.task s.current in wake_found s (find_waiter s.task c.parent c.pid s.wait)

-- `none` stands for a call through a null pointer.
unfoldable pub kill_found : Procs → ℕ → Option ℕ → Option (Bool × Procs)
unfolding remove_sched add_exited
kill_found s pid none = none
kill_found s pid (some t) =
    let s' = add_exited t (remove_sched t (set_state t s_terminal s)) in
    some (true, record s' { pids = (pid_free s'.pids pid).1 })

-- `true` for the result 0.
unfoldable pub pc_kill : ℕ → Procs → Option (Bool × Procs)
unfolding kill_found find_in_tasks
pc_kill pid s =
    if pid == idle_pid
    then some (false, s)
    else if pid == init_id
    then some (false, s)
    else if pid == (s.task s.current).pid
    then some (false, s)
    else if pid_check s.pids pid
    then kill_found s pid (find_in_tasks s pid)
    else some (false, s)

unfoldable pub leave_to : ℕ → Option ℕ × Procs → Option Procs
unfolding remove_sched add_exited
leave_to cur (none, s) = none
leave_to cur (some t, s) =
    let s' = add_exited cur (remove_sched cur s) in
    some (record s' { pids = (pid_free s'.pids (s'.task cur).pid).1; current = t })

-- The table when the next task runs; `none` for a kernel that stops.
unfoldable pub pc_exit : Procs → Option Procs
unfolding leave_to wakeup_parent find_next_task
pc_exit s =
    let c = s.current in
    if (s.task c).pid == idle_pid
    then none
    else leave_to c (find_next_task (wakeup_parent (set_state c s_terminal s)))
