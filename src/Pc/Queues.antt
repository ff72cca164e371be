-- ===== src/Pc/Queues.antt =====
-- The process table of kernel/pc/pc.c: tasks behind pointers, and the queues that they are linked into. A
-- queue is the list of the tasks on its ring, from the head on: a task is linked into one
-- scheduling queue at most by its `sched` node, and into the task list by its `node`.
use os_final_program.Base.{
  ℕ, ◌*◌, Option, none, some, List, [], ◌∷◌, ◌++◌, ltb, ◌==◌, if◌then◌else◌, sub32,
}
use os_final_program.Pid.{Pid}

abbrev pub s_uninit : ℕ
s_uninit = 0

abbrev pub s_ready : ℕ
s_ready = 1

abbrev pub s_terminal : ℕ
s_terminal = 4

-- `-(int)pid`, the state of a task that waits for another, as a word.
abbrev pub waiting_for : ℕ → ℕ
waiting_for pid = sub32 0 pid

abbrev pub idle_pid : ℕ
idle_pid = 0

abbrev pub init_id : ℕ
init_id = 1

-- The 32 words of `struct regs_context`, in order.
abbrev pub Context : Type 0
Context = List ℕ

-- All registers are copied.
abbrev pub copy_context : Context → Context → Context
copy_context src dest = src

-- `struct task_struct`; `mm` and `task_files` are pointers, 0 for none.
pub record Task : Type 0 where
  pub pid : ℕ
  pub parent : ℕ
  pub asid : ℕ
  pub state : ℕ
  pub time_cnt : ℕ
  pub sched_lv : ℕ
  pub context : Context
  pub mm : ℕ
  pub task_files : ℕ

-- The globals. `back` holds `sched_back` by level.
pub record Procs : Type 0 where
  pub task : ℕ → Task
  pub tasks : List ℕ
  pub sched : List ℕ
  pub back : ℕ → List ℕ
  pub wait : List ℕ
  pub exited : List ℕ
  pub current : ℕ
  pub pids : Pid

abbrev pub put_task : (ℕ → Task) → ℕ → Task → ℕ → Task
put_task f t v u = if t == u then v else f u

abbrev pub put_queue : (ℕ → List ℕ) → ℕ → List ℕ → ℕ → List ℕ
put_queue f i v j = if i == j then v else f j

-- `list_del` of a task's node: it is on no queue afterwards.
unfoldable pub unlink : ℕ → List ℕ → List ℕ
unlink t [] = []
unlink t (x ∷ xs) = let rest = unlink t xs in if x == t then rest else x ∷ rest

-- `list_add_tail`.
abbrev pub add_tail : ℕ → List ℕ → List ℕ
add_tail t q = q ++ (t ∷ [])

-- `sched_time_cnt[i]`, set up by `init_pc_list`.
abbrev pub time_slice : ℕ → ℕ
time_slice i = 500 * i

abbrev pub sched_lv_range : ℕ
sched_lv_range = 3

-- `remove_sched` and `remove_exited`: the `sched` node leaves the queue that it is on.
unfoldable pub remove_sched : ℕ → Procs → Procs
unfolding unlink
remove_sched t s = record s {
  sched = unlink t s.sched;
  back = λ i. unlink t (s.back i);
  wait = unlink t s.wait;
  exited = unlink t s.exited;
}

unfoldable pub remove_task : ℕ → Procs → Procs
unfolding unlink
remove_task t s = record s { tasks = unlink t s.tasks }

unfoldable pub add_wait : ℕ → Procs → Procs
add_wait t s = record s { wait = add_tail t s.wait }

unfoldable pub add_exited : ℕ → Procs → Procs
add_exited t s = record s { exited = add_tail t s.exited }

unfoldable pub add_task : ℕ → Procs → Procs
add_task t s = record s { tasks = add_tail t s.tasks }

unfoldable pub add_sched : ℕ → Procs → Procs
add_sched t s = record s { sched = add_tail t s.sched }

-- A level out of range is refused.
unfoldable pub add_sched_back : ℕ → ℕ → Procs → Procs
add_sched_back t index s =
    if ltb sched_lv_range index
    then s
    else record s { back = put_queue s.back index (add_tail t (s.back index)) }

-- The first task of a list with the pid.
unfoldable pub find_pid : (ℕ → Task) → ℕ → List ℕ → Option ℕ
find_pid f pid [] = none
find_pid f pid (t ∷ ts) = if (f t).pid == pid then some t else find_pid f pid ts

unfoldable pub find_in_tasks : Procs → ℕ → Option ℕ
unfolding find_pid
find_in_tasks s pid = find_pid s.task pid s.tasks

abbrev pub or_else : Option ℕ → Option ℕ → Option ℕ
or_else (some t) r = some t
or_else none r = r

unfoldable pub find_in_sched : Procs → ℕ → Option ℕ
unfolding find_pid
find_in_sched s pid = or_else (find_pid s.task pid s.sched) (
    or_else (find_pid s.task pid (s.back 1))
      (or_else (find_pid s.task pid (s.back 2)) (find_pid s.task pid (s.back 3))))
