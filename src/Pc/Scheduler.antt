-- ===== src/Pc/Scheduler.antt =====
-- `find_next_task`, `find_in_sched_back`, `clear_exited` and `pc_schedule` of kernel/pc/pc.c.
use os_final_program.Base.{
  ℕ, ◌+◌, Option, none, some, List, [], ◌∷◌, ltb, ◌==◌, if◌then◌else◌, sub32,
}
use os_final_program.Pc.Queues.{
  Context, copy_context, Task, Procs, s_ready, s_terminal, put_task, time_slice, remove_sched,
  remove_task, add_sched_back, or_else,
}

abbrev pub first : List ℕ → Option ℕ
first [] = none
first (t ∷ ts) = some t

-- What `sched.next` of a task leads to.
pub data Next : Type 0 where
  task_behind : ℕ → Next
  list_head : Next

-- On the queue, the task behind it or, for the last one, the head. A node that is on no queue points
-- to itself.
unfoldable pub next_of : ℕ → List ℕ → Next
next_of t [] = task_behind t
next_of t (x ∷ []) = if x == t then list_head else task_behind t
next_of t (x ∷ y ∷ ys) = if x == t then task_behind y else next_of t (y ∷ ys)

unfoldable pub find_ready : (ℕ → Task) → List ℕ → Option ℕ
find_ready f [] = none
find_ready f (t ∷ ts) = if (f t).state == s_ready then some t else find_ready f ts

-- The first ready task of the levels 1 to 3.
unfoldable pub find_in_sched_back : Procs → Option ℕ
unfolding find_ready
find_in_sched_back s =
    or_else (find_ready s.task (s.back 1))
      (or_else (find_ready s.task (s.back 2)) (find_ready s.task (s.back 3)))

-- The task's time slice goes down by one; when it is used up, the task drops a level.
unfoldable pub charge : Task → Task
charge t =
    let left = sub32 t.time_cnt 1 in
    if left == 0
    then record t { sched_lv = t.sched_lv + 1; time_cnt = time_slice (t.sched_lv + 1) }
    else record t { time_cnt = left }

-- A running task of level 1 or 2 is charged and goes to the tail of its level's queue.
unfoldable pub requeue : Procs → Procs
unfolding charge remove_sched add_sched_back
requeue s =
    let c = s.current in
    let s' = remove_sched c s in
    let t = charge (s.task c) in
    if ltb (s.task c).sched_lv 3
    then add_sched_back c t.sched_lv (record s' { task = put_task s.task c t })
    else s

unfoldable pub from_back : Procs → Next → Option ℕ
unfolding find_in_sched_back
from_back s (task_behind t) = some t
from_back s list_head = or_else (find_in_sched_back s) (first s.sched)

-- The task to run next, and the queues. `none` is a null or wild pointer: the foreground queue is empty.
unfoldable pub find_next_task : Procs → Option ℕ × Procs
unfolding from_back next_of requeue
find_next_task s =
    if (s.task s.current).sched_lv == 0
    then (from_back s (next_of s.current s.sched), s)
    else (first s.sched, requeue s)

-- The tasks that have ended are taken off both lists, from the front. The list holds the tasks that are
-- left; `none` for a task that has not ended, at which the kernel stops.
unfoldable pub clear_from : List ℕ → Procs → Option Procs
unfolding remove_sched remove_task
clear_from [] s = some s
clear_from (t ∷ ts) s =
    let rest = clear_from ts (remove_task t (remove_sched t s)) in
    if (s.task t).state == s_terminal then rest else none

unfoldable pub clear_exited : Procs → Option Procs
unfolding clear_from
clear_exited s = clear_from s.exited s

-- The contexts are exchanged: that of the interrupt goes to the old task, and the new task's takes its
-- place. `none` stands for a kernel that stops.
unfoldable pub switch_to : Context → Option ℕ × Procs → Option (Context × Procs)
switch_to ctx (none, s) = none
switch_to ctx (some t, s) =
    let old = s.task s.current in
    let f = put_task s.task s.current (record old { context = copy_context ctx old.context }) in
    if t == s.current
    then none
    else some (copy_context (f t).context ctx, record s { task = f; current = t })

unfoldable pub schedule_cleared : Context → Option Procs → Option (Context × Procs)
unfolding switch_to find_next_task
schedule_cleared ctx none = none
schedule_cleared ctx (some s) = switch_to ctx (find_next_task s)

unfoldable pub pc_schedule : Context → Procs → Option (Context × Procs)
unfolding schedule_cleared clear_exited
pc_schedule ctx s = schedule_cleared ctx (clear_exited s)
