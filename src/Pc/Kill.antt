-- ===== src/Pc/Kill.antt =====
-- `pc_kill` and `clear_exited` of kernel/pc/pc.c.
use os_final_program.Base.{
  ℕ, ◌≡◌, refl, subst, ◌∙◌, ◌≢◌, ◌⊎◌, inl, inr, true, false, Option, none, some, List, [], ◌∷◌,
  arith, ◌==◌, ==_iff, ==_refl, ==_ne, ==_differ, Bool-cases,
}
use os_final_program.Pid.{pid_free, pid_check}
use os_final_program.Pc.Queues.{
  Procs, Task, s_terminal, add_tail, remove_sched, add_exited, find_pid, find_in_tasks,
}
use os_final_program.Pc.Life.{set_state, kill_found, pc_kill}
use os_final_program.Pc.Unlink.{Without, unlink-Without}
use os_final_program.Pc.QueueLaws.{contains-add_tail}
use os_final_program.Pc.Endings.{gone-unlink}
use os_final_program.Pc.Leaving.{Ended}
use os_final_program.Pc.Steps.{some_same}

-- What makes `pc_kill` refuse.
pub data Refused (s : Procs) (pid : ℕ) : Type 0 where
  is_idle : pid ≡ 0 → Refused s pid
  is_shell : pid ≡ 1 → Refused s pid
  is_current : pid ≡ (s.task s.current).pid → Refused s pid
  is_free : pid_check s.pids pid ≡ false → Refused s pid

-- None of what makes `pc_kill` refuse.
pub record Accepted (s : Procs) (pid : ℕ) : Type 0 where
  pub not_idle : pid ≢ 0
  pub not_shell : pid ≢ 1
  pub not_current : pid ≢ (s.task s.current).pid
  pub in_use : pid_check s.pids pid ≡ true

-- The killed task has ended, and no other task changes: one that waits for it goes on waiting.
pub record Killed (t pid : ℕ) (s s' : Procs) : Type 0 where
  pub has_pid : (s.task t).pid ≡ pid
  pub ended : Ended t s s'
  pub others : (u : ℕ) → t ≢ u → s'.task u ≡ s.task u
  pub waiters : Without t s.wait s'.wait
  pub same_current : s'.current ≡ s.current

find_pid-has_pid :
    (f : ℕ → Task) (pid t : ℕ) (ts : List ℕ) → find_pid f pid ts ≡ some t → (f t).pid ≡ pid
unfolding find_pid
find_pid-has_pid f pid t [] e = cc
find_pid-has_pid f pid t (x ∷ xs) e = elim (Bool-cases ((f x).pid == pid)) [
  | inl z ↦ subst (λ u. (f u).pid ≡ pid) (some_same x t (rw z at e)) ((==_iff _ _).0 z)
  | inr z ↦ find_pid-has_pid f pid t xs (rw z at e)
]

kill_found-Killed :
    (s : Procs) (pid t : ℕ)
    → (s.task t).pid ≡ pid
    → (s' : Procs) × (kill_found s pid (some t) ≡ some (true, s')) × Killed t pid s s'
unfolding kill_found add_exited remove_sched
kill_found-Killed s pid t e =
    let r : Procs = remove_sched t (set_state t s_terminal s) in
    (
      record r { exited = add_tail t r.exited; pids = (pid_free r.pids pid).1 },
      refl,
      record {
        has_pid = e;
        ended = record {
          state_terminal = rw (==_refl t);
          on_exited = contains-add_tail t t r.exited ∙ rw (==_refl t) (ground arith);
          off_queues = record {
            off_fore = gone-unlink t s.sched;
            off_back = λ i. gone-unlink t (s.back i);
          };
          off_wait = gone-unlink t s.wait;
          pid_released = rw e;
        };
        others = λ u n. rw (==_ne t u n);
        waiters = unlink-Without t s.wait;
        same_current = refl;
      },
    )

-- `pc_kill` refuses the idle task, the shell, the current process and a pid that is not in use, and changes
-- nothing. In the other cases the pid is in use and is none of these three. The first task with it has ended: it is in its last state on the exited
-- list, on no scheduling queue and not on the wait list, and its pid is released; no other task
-- changes or leaves the wait list. If the pid is in use and no task has it, the kernel stops.
pub pc_kill-cases :
    (s : Procs) (pid : ℕ)
    → (Refused s pid × (pc_kill pid s ≡ some (false, s)))
      ⊎ (Accepted s pid × (find_in_tasks s pid ≡ none) × (pc_kill pid s ≡ none))
      ⊎ (Accepted s pid
          × ((t : ℕ) × (find_in_tasks s pid ≡ some t)
              × ((s' : Procs) × (pc_kill pid s ≡ some (true, s')) × Killed t pid s s')))
unfolding pc_kill find_in_tasks
pc_kill-cases s pid = elim (Bool-cases (pid == 0)) [
  | inl z ↦ inl (is_idle ((==_iff _ _).0 z), rw z)
  | inr z ↦ elim (Bool-cases (pid == 1)) [
    | inl y ↦ inl (is_shell ((==_iff _ _).0 y), rw (z, y))
    | inr y ↦ elim (Bool-cases (pid == (s.task s.current).pid)) [
      | inl x ↦ inl (is_current ((==_iff _ _).0 x), rw (z, y, x))
      | inr x ↦ elim (Bool-cases (pid_check s.pids pid)) [
        | inr w ↦ inl (is_free w, rw (z, y, x, w))
        | inl w ↦ inr (
            rw (z, y, x, w)
              (go
                (record {
                  not_idle = ==_differ z;
                  not_shell = ==_differ y;
                  not_current = ==_differ x;
                  in_use = w;
                })
                (find_pid s.task pid s.tasks) refl))
      ]
    ]
  ]
]
  where
    go :
        Accepted s pid
        → (o : Option ℕ) → find_pid s.task pid s.tasks ≡ o
        → (Accepted s pid
            × (find_pid s.task pid s.tasks ≡ none)
            × (kill_found s pid (find_pid s.task pid s.tasks) ≡ none))
          ⊎ (Accepted s pid
              × ((t : ℕ) × (find_pid s.task pid s.tasks ≡ some t)
                  × ((s' : Procs) × (kill_found s pid (find_pid s.task pid s.tasks)
                        ≡ some (true, s'))
                      × Killed t pid s s')))
    go a none e = inl (a, e, rw e (unfold kill_found in refl))
    go a (some t) e =
        inr (a, (t, e, rw e (kill_found-Killed s pid t (find_pid-has_pid s.task pid t s.tasks e))))
