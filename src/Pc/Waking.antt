-- ===== src/Pc/Waking.antt =====
-- Who is woken and what runs next in kernel/pc/pc.c.
use os_final_program.Base.{
  ℕ, ◌≡◌, refl, sym, ap, ap₂, ◌∙◌, inl, inr, true, false, ◌&&◌, ◌||◌, Option, none, some, List, [],
  ◌∷◌, arith, ◌==◌, ==_iff, Bool-cases, contains,
}
use os_final_program.Pc.Queues.{Procs, Task, waiting_for, unlink, remove_sched, add_sched, or_else}
use os_final_program.Pc.Life.{find_waiter, wake, wake_found, wakeup_parent}
use os_final_program.Pc.Scheduler.{
  find_next_task, first, from_back, Next, task_behind, list_head, next_of, find_in_sched_back,
}
use os_final_program.Pc.QueueLaws.{Levels, contains-unlink, contains-add_tail}
use os_final_program.Pc.Endings.{kept-unlink}

-- A task waits for its child `c`.
pub record WaitsFor (s : Procs) (c p : ℕ) : Type 0 where
  pub on_wait : contains s.wait p ≡ true
  pub is_parent : (s.task p).pid ≡ (s.task c).parent
  pub waits : (s.task p).state ≡ waiting_for (s.task c).pid

pub find_waiter-finds :
    (f : ℕ → Task) (ppid pid p : ℕ) (ts : List ℕ)
    → contains ts p ≡ true
    → (f p).pid ≡ ppid
    → (f p).state ≡ waiting_for pid
    → (q : ℕ) × (find_waiter f ppid pid ts ≡ some q)
      × (contains ts q ≡ true)
      × ((f q).pid ≡ ppid)
      × ((f q).state ≡ waiting_for pid)
unfolding find_waiter
find_waiter-finds f ppid pid p [] h e g = cc
find_waiter-finds f ppid pid p (x ∷ xs) h e g =
    elim (Bool-cases (((f x).pid == ppid) && ((f x).state == waiting_for pid))) [
      | inl z ↦
          (x, rw z, ground arith, (==_iff _ _).0 (ground arith), (==_iff _ _).0 (ground arith))
      | inr z ↦
          let r = find_waiter-finds f ppid pid p xs (later z) e g in
          (r.0, rw z r.1, ground arith, r.3, r.4)
    ]
  where
    later : (((f x).pid == ppid) && ((f x).state == waiting_for pid)) ≡ false → contains xs p ≡ true
    later z = elim (Bool-cases (x == p)) [
      | inr w ↦ rw w at h
      | inl w ↦
          let k : x ≡ p = (==_iff x p).0 w in
          absurd (
            cc (
              sym z
              ∙ ap₂ ◌&&◌ ((==_iff _ ppid).1 (ap (λ u. (f u).pid) k ∙ e))
                  ((==_iff _ (waiting_for pid)).1 (ap (λ u. (f u).state) k ∙ g))))
    ]

first-some : (t : ℕ) (xs : List ℕ) → contains xs t ≡ true → (u : ℕ) × (first xs ≡ some u)
first-some t [] h = cc
first-some t (x ∷ xs) h = (x, refl)

from_back-some :
    (s : Procs) (t : ℕ) (n : Next) → contains s.sched t ≡ true → (u : ℕ) × (from_back s n ≡ some u)
unfolding from_back
from_back-some s t (task_behind u) h = (u, refl)
from_back-some s t list_head h = go (find_in_sched_back s)
  where
    go : (o : Option ℕ) → (u : ℕ) × (or_else o (first s.sched) ≡ some u)
    go (some u) = (u, refl)
    go none = first-some t s.sched h

pub find_next_task-some :
    (s : Procs) (t : ℕ) → contains s.sched t ≡ true → (u : ℕ) × ((find_next_task s).0 ≡ some u)
unfolding find_next_task
find_next_task-some s t h = elim (Bool-cases ((s.task s.current).sched_lv == 0)) [
  | inl z ↦ rw z (from_back-some s t (next_of s.current s.sched) h)
  | inr z ↦ rw z (first-some t s.sched h)
]

wake-keeps_fore :
    (p t : ℕ) (s : Procs)
    → Levels s
    → contains s.sched t ≡ true
    → contains (wake p s).sched t ≡ true
unfolding wake remove_sched add_sched
wake-keeps_fore p t s v h = elim (Bool-cases ((s.task p).sched_lv == 0)) [
  | inl z ↦ rw z (contains-add_tail p t (unlink p s.sched) ∙ tail)
  | inr z ↦ rw z (
      kept-unlink p t s.sched
        (λ e. cc (sym z ∙ (==_iff _ 0).1 (ap (λ u. (s.task u).sched_lv) e ∙ v.fore t h)))
      ∙ h)
]
  where
    tail : (contains (unlink p s.sched) t || (p == t)) ≡ true
    tail = rw (contains-unlink p t s.sched, h) (ground arith)

pub wakeup_parent-keeps_fore :
    (t : ℕ) (s : Procs)
    → Levels s
    → contains s.sched t ≡ true
    → contains (wakeup_parent s).sched t ≡ true
unfolding wakeup_parent
wakeup_parent-keeps_fore t s v h =
    go (find_waiter s.task (s.task s.current).parent (s.task s.current).pid s.wait)
  where
    go : (o : Option ℕ) → contains (wake_found s o).sched t ≡ true
    go none = unfold wake_found in h
    go (some p) = unfold wake_found in wake-keeps_fore p t s v h
