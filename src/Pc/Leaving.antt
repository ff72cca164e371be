-- ===== src/Pc/Leaving.antt =====
-- How a task that has ended leaves the processor (kernel/pc/pc.c).
use os_final_program.Base.{
  ℕ, ◌≡◌, refl, sym, ap, ap₂, ◌∙◌, ◌≢◌, inl, inr, true, false, some, arith, ltb, ◌==◌, ==_refl,
  ==_ne, Bool-cases, contains,
}
use os_final_program.Pid.{pid_free}
use os_final_program.Pc.Queues.{
  Procs, Task, s_terminal, add_tail, remove_sched, add_exited, add_sched, add_sched_back, put_task,
}
use os_final_program.Pc.Life.{wake, leave_to}
use os_final_program.Pc.Scheduler.{find_next_task, charge, requeue}
use os_final_program.Pc.QueueLaws.{Idle, contains-add_tail, remove_sched-Idle}
use os_final_program.Pc.Endings.{Ready, gone-unlink, remove_sched-Ready, find_next_task-Ready}
use os_final_program.Pc.Waking.{find_next_task-some}

-- What is left of a process that has ended: a task in its last state on the list of such tasks, on no
-- other queue, whose pid has been released.
pub record Ended (t : ℕ) (s s' : Procs) : Type 0 where
  pub state_terminal : (s'.task t).state ≡ s_terminal
  pub on_exited : contains s'.exited t ≡ true
  pub off_queues : Idle t s'
  pub off_wait : contains s'.wait t ≡ false
  pub pid_released : s'.pids ≡ (pid_free s.pids (s.task t).pid).1

-- What a step before the end leaves of the current task.
pub record SameTask (c : ℕ) (s s' : Procs) : Type 0 where
  pub same_state : (s'.task c).state ≡ (s.task c).state
  pub same_pid : (s'.task c).pid ≡ (s.task c).pid
  pub same_pids : s'.pids ≡ s.pids

charge-keeps : (t : Task) → ((charge t).state ≡ t.state) × ((charge t).pid ≡ t.pid)
unfolding charge
charge-keeps t = ground arith

find_next_task-SameTask : (s : Procs) → SameTask s.current s (find_next_task s).1
unfolding find_next_task requeue add_sched_back remove_sched
find_next_task-SameTask s = elim (Bool-cases ((s.task s.current).sched_lv == 0)) [
  | inl z ↦ rw z (record { same_state = refl; same_pid = refl; same_pids = refl })
  | inr z ↦ rw z (elim (Bool-cases (ltb (s.task s.current).sched_lv 3)) [
    | inr y ↦ rw y (record { same_state = refl; same_pid = refl; same_pids = refl })
    | inl y ↦ rw y (elim (Bool-cases (ltb 3 (charge (s.task s.current)).sched_lv)) [
      | inl x ↦ rw x charged
      | inr x ↦ rw x (record {
        same_state = charged.same_state;
        same_pid = charged.same_pid;
        same_pids = refl;
      })
    ])
  ])
]
  where
    charged : SameTask s.current s (record (remove_sched s.current s) {
      task = put_task s.task s.current (charge (s.task s.current));
    })
    charged = record {
      same_state = rw (==_refl s.current) (charge-keeps (s.task s.current)).0;
      same_pid = rw (==_refl s.current) (charge-keeps (s.task s.current)).1;
      same_pids = refl;
    }

pub wake-SameTask : (q c : ℕ) (s : Procs) → q ≢ c → SameTask c s (wake q s)
unfolding wake remove_sched add_sched
wake-SameTask q c s n = elim (Bool-cases ((s.task q).sched_lv == 0)) [
  | inl z ↦ rw z (record {
    same_state = rw (==_ne q c n) refl;
    same_pid = rw (==_ne q c n) refl;
    same_pids = refl;
  })
  | inr z ↦ rw z (record {
    same_state = rw (==_ne q c n) refl;
    same_pid = rw (==_ne q c n) refl;
    same_pids = refl;
  })
]

leave_to-Ended :
    (c u : ℕ) (s : Procs)
    → (s.task c).state ≡ s_terminal
    → (s' : Procs) × (leave_to c (some u, s) ≡ some s')
      × Ended c s s'
      × (s'.current ≡ u)
      × ((t : ℕ) → c ≢ t → Ready t s → Ready t s')
unfolding leave_to add_exited
leave_to-Ended c u s e = (
  record (remove_sched c s) {
    exited = add_tail c (remove_sched c s).exited;
    pids = (pid_free (remove_sched c s).pids ((remove_sched c s).task c).pid).1;
    current = u;
  },
  refl,
  record {
    state_terminal = unfold remove_sched in e;
    on_exited = contains-add_tail c c (remove_sched c s).exited ∙ rw (==_refl c) (ground arith);
    off_queues = record {
      off_fore = (remove_sched-Idle c s).off_fore;
      off_back = (remove_sched-Idle c s).off_back;
    };
    off_wait = unfold remove_sched in gone-unlink c s.wait;
    pid_released = unfold remove_sched in refl;
  },
  refl,
  λ t n r. same_ready (remove_sched-Ready c t s n r),
)
  where
    same_ready :
        {t : ℕ}
        → Ready t (remove_sched c s)
        → Ready t (record (remove_sched c s) {
          exited = add_tail c (remove_sched c s).exited;
          pids = (pid_free (remove_sched c s).pids ((remove_sched c s).task c).pid).1;
          current = u;
        })
    same_ready r = record {
      state_ready = r.state_ready;
      on_fore = r.on_fore;
      on_back = r.on_back;
      off_wait = r.off_wait;
    }

pub wake-current : (q : ℕ) (s : Procs) → (wake q s).current ≡ s.current
unfolding wake remove_sched add_sched
wake-current q s = elim (Bool-cases ((s.task q).sched_lv == 0)) [ inl z ↦ rw z | inr z ↦ rw z ]

-- The current task of `b` leaves the processor.
pub leaving :
    (b : Procs) (q i : ℕ)
    → (b.task b.current).state ≡ s_terminal
    → contains b.sched i ≡ true
    → b.current ≢ q
    → Ready q b
    → (s' : Procs) × (leave_to b.current (find_next_task b) ≡ some s')
      × Ended b.current b s'
      × ((find_next_task b).0 ≡ some s'.current)
      × Ready q s'
leaving b q i e h n r =
    let f = find_next_task-some b i h in
    let k : SameTask b.current b (find_next_task b).1 = find_next_task-SameTask b in
    let l = leave_to-Ended b.current f.0 (find_next_task b).1 (k.same_state ∙ e) in
    (
      l.0,
      ap (leave_to b.current) (ap (λ o. (o, (find_next_task b).1)) f.1) ∙ l.1,
      ended k l.2,
      f.1 ∙ ap some (sym l.3),
      l.4 q n (find_next_task-Ready q b n r),
    )
  where
    ended : {s2 s' : Procs} → SameTask b.current b s2 → Ended b.current s2 s' → Ended b.current b s'
    ended k d = record {
      state_terminal = d.state_terminal;
      on_exited = d.on_exited;
      off_queues = d.off_queues;
      off_wait = d.off_wait;
      pid_released = d.pid_released ∙ ap₂ (λ u v. (pid_free u v).1) k.same_pids k.same_pid;
    }
