-- ===== src/Pc/Exit.antt =====
-- `pc_exit` of kernel/pc/pc.c.
use os_final_program.Base.{
  ℕ, ◌≡◌, sym, ap, ap₂, subst, ◌∙◌, ◌≢◌, true, false, some, ◌==◌, ==_refl, ==_ne, contains,
}
use os_final_program.Pid.{pid_free}
use os_final_program.Pc.Queues.{Procs, s_terminal}
use os_final_program.Pc.Life.{
  set_state, find_waiter, wake, wake_found, wakeup_parent, leave_to, pc_exit,
}
use os_final_program.Pc.Scheduler.{find_next_task}
use os_final_program.Pc.QueueLaws.{Levels, set_state-Levels}
use os_final_program.Pc.Endings.{Ready, wake-Ready}
use os_final_program.Pc.Waking.{WaitsFor, find_waiter-finds, wakeup_parent-keeps_fore}
use os_final_program.Pc.Leaving.{Ended, SameTask, leaving, wake-current, wake-SameTask}

-- The current task in its last state.
abbrev ending : Procs → Procs
ending s = set_state s.current s_terminal s

-- The search for a waiting parent finds one.
waiter :
    (s : Procs) (p : ℕ)
    → contains s.wait s.current ≡ false
    → WaitsFor s s.current p
    → (q : ℕ) × (find_waiter (ending s).task (s.task s.current).parent (s.task s.current).pid s.wait
        ≡ some q)
      × WaitsFor s s.current q
waiter s p o w =
    let r =
      find_waiter-finds (ending s).task (s.task c).parent (s.task c).pid p s.wait w.on_wait
        (ap (λ t. t.pid) (other p w.on_wait) ∙ w.is_parent)
        (ap (λ t. t.state) (other p w.on_wait) ∙ w.waits) in
    (
      r.0,
      r.1,
      record {
        on_wait = r.2;
        is_parent = ap (λ t. t.pid) (sym (other r.0 r.2)) ∙ r.3;
        waits = ap (λ t. t.state) (sym (other r.0 r.2)) ∙ r.4;
      },
    )
  where
    c : ℕ
    c = s.current

    other : (t : ℕ) → contains s.wait t ≡ true → (ending s).task t ≡ s.task t
    other t k = rw (==_ne c t (λ e. cc))

-- The current task ends when `q` has been woken.
woken_leaves :
    (s : Procs) (q i : ℕ)
    → Levels s
    → contains s.sched i ≡ true
    → s.current ≢ q
    → wakeup_parent (ending s) ≡ wake q (ending s)
    → (s' : Procs) × (leave_to s.current (find_next_task (wakeup_parent (ending s))) ≡ some s')
      × Ended s.current s s'
      × ((find_next_task (wakeup_parent (ending s))).0 ≡ some s'.current)
      × Ready q s'
woken_leaves s q i v h n woken = (
  left.0,
  ap (λ k. leave_to c (find_next_task k)) woken ∙ left.1,
  record {
    state_terminal = left.2.state_terminal;
    on_exited = left.2.on_exited;
    off_queues = left.2.off_queues;
    off_wait = left.2.off_wait;
    pid_released =
        left.2.pid_released
        ∙ ap₂ (λ u k. (pid_free u k).1) kept.same_pids (kept.same_pid ∙ ap (λ t. t.pid) self);
  },
  ap (λ k. (find_next_task k).0) woken ∙ left.3,
  left.4,
)
  where
    c : ℕ
    c = s.current

    b : Procs
    b = wake q (ending s)

    self : (ending s).task c ≡ record (s.task c) { state = s_terminal }
    self = rw (==_refl c)

    kept : SameTask c (ending s) b
    kept = wake-SameTask q c (ending s) (λ e. n (sym e))

    same : b.current ≡ c
    same = wake-current q (ending s)

    left :
        (s' : Procs) × (leave_to c (find_next_task b) ≡ some s')
        × Ended c b s'
        × ((find_next_task b).0 ≡ some s'.current)
        × Ready q s'
    left =
        subst
          (λ k.
            (s' : Procs) × (leave_to k (find_next_task b) ≡ some s')
            × Ended k b s'
            × ((find_next_task b).0 ≡ some s'.current)
            × Ready q s')
          same
          (leaving b q i
            (ap (λ k. (b.task k).state) same ∙ kept.same_state ∙ ap (λ t. t.state) self)
            (subst (λ k. contains k.sched i ≡ true) woken
              (wakeup_parent-keeps_fore i (ending s) (set_state-Levels c s_terminal s v) h))
            (λ e. n (sym same ∙ e)) (wake-Ready q (ending s)))

wakeup_parent-wake :
    (s : Procs) (q : ℕ)
    → find_waiter (ending s).task (s.task s.current).parent (s.task s.current).pid s.wait ≡ some q
    → wakeup_parent (ending s) ≡ wake q (ending s)
unfolding wakeup_parent wake_found
wakeup_parent-wake s q e =
    let self : (ending s).task s.current ≡ record (s.task s.current) { state = s_terminal } =
      rw (==_refl s.current) in
    ap (λ t. wake_found (ending s) (find_waiter (ending s).task t.parent t.pid s.wait)) self
    ∙ ap (wake_found (ending s)) e

-- Every task is on queues of its own level only, the current process waits for nobody and is not the
-- idle task, and some task is in the foreground. If its parent waits for it, `pc_exit` returns: the
-- current task is then the one that `find_next_task` chooses once the process is in its last state and
-- its parent has been woken; the process has ended, and a parent that waited for it is ready, on the
-- queue of its level, and waits no more.
pub pc_exit-wakes :
    (s : Procs) (p i : ℕ)
    → Levels s
    → (s.task s.current).pid ≢ 0
    → contains s.wait s.current ≡ false
    → contains s.sched i ≡ true
    → WaitsFor s s.current p
    → (s' : Procs) × (pc_exit s ≡ some s')
      × Ended s.current s s'
      × ((find_next_task (wakeup_parent (set_state s.current s_terminal s))).0 ≡ some s'.current)
      × ((q : ℕ) × WaitsFor s s.current q × Ready q s')
unfolding pc_exit
pc_exit-wakes s p i v n o h w =
    let f = waiter s p o w in
    let z : ((s.task s.current).pid == 0) ≡ false = ==_ne (s.task s.current).pid 0 n in
    let apart : s.current ≢ f.0 = λ e. cc (sym (f.2.on_wait) ∙ ap (contains s.wait) (sym e) ∙ o) in
    let r = woken_leaves s f.0 i v h apart (wakeup_parent-wake s f.0 f.1) in
    (r.0, rw z r.1, r.2, r.3, (f.0, f.2, r.4))
