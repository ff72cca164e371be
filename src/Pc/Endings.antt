-- ===== src/Pc/Endings.antt =====
-- A ready task stays ready while another task leaves the processor (kernel/pc/pc.c).
use os_final_program.Base.{
  ℕ, ◌≡◌, sym, ◌∙◌, ◌≢◌, inl, inr, true, false, List, arith, ltb, ◌==◌, ==_iff, ==_refl, ==_ne,
  Bool-cases, contains,
}
use os_final_program.Pc.Queues.{
  Procs, Task, s_ready, unlink, remove_sched, add_sched, add_sched_back, put_task,
}
use os_final_program.Pc.Life.{wake}
use os_final_program.Pc.Scheduler.{find_next_task, requeue}
use os_final_program.Pc.QueueLaws.{contains-unlink, contains-add_tail}

-- A task that is ready and on its queue, and waits no more.
pub record Ready (t : ℕ) (s : Procs) : Type 0 where
  pub state_ready : (s.task t).state ≡ s_ready
  pub on_fore : (s.task t).sched_lv ≡ 0 → contains s.sched t ≡ true
  pub on_back : (s.task t).sched_lv ≢ 0 → contains (s.back (s.task t).sched_lv) t ≡ true
  pub off_wait : contains s.wait t ≡ false

-- A queue from which another task is unlinked.
pub kept-unlink : (c t : ℕ) (xs : List ℕ) → c ≢ t → contains (unlink c xs) t ≡ contains xs t
kept-unlink c t xs n = rw (contains-unlink c t xs, ==_ne c t n)

pub gone-unlink : (c : ℕ) (xs : List ℕ) → contains (unlink c xs) c ≡ false
gone-unlink c xs = rw (contains-unlink c c xs, ==_refl c)

pub wake-Ready : (t : ℕ) (s : Procs) → Ready t (wake t s)
unfolding wake remove_sched add_sched
wake-Ready t s = elim (Bool-cases ((s.task t).sched_lv == 0)) [
  | inl z ↦ rw z (record {
    state_ready = rw (==_refl t);
    on_fore = λ e. rw (contains-add_tail t t (unlink t s.sched), ==_refl t) (ground arith);
    on_back = rw (==_refl t) (λ n. absurd (n ((==_iff _ 0).0 z)));
    off_wait = gone-unlink t s.wait;
  })
  | inr z ↦ rw z (record {
    state_ready = rw (==_refl t);
    on_fore = rw (==_refl t) (λ e. absurd (cc (sym z ∙ (==_iff _ 0).1 e)));
    on_back = λ n. rw (==_refl t, ==_refl (s.task t).sched_lv) (ground arith);
    off_wait = gone-unlink t s.wait;
  })
]

pub remove_sched-Ready : (c t : ℕ) (s : Procs) → c ≢ t → Ready t s → Ready t (remove_sched c s)
unfolding remove_sched
remove_sched-Ready c t s n r = record {
  state_ready = r.state_ready;
  on_fore = λ e. rw (kept-unlink c t s.sched n) (r.on_fore e);
  on_back = λ e. rw (kept-unlink c t (s.back (s.task t).sched_lv) n) (r.on_back e);
  off_wait = rw (kept-unlink c t s.wait n) r.off_wait;
}

put_task-Ready :
    (c t : ℕ) (t' : Task) (s : Procs)
    → c ≢ t
    → Ready t s
    → Ready t (record s { task = put_task s.task c t' })
put_task-Ready c t t' s n r = record {
  state_ready = rw (==_ne c t n) r.state_ready;
  on_fore = rw (==_ne c t n) r.on_fore;
  on_back = rw (==_ne c t n) r.on_back;
  off_wait = r.off_wait;
}

add_sched_back-Ready : (c i t : ℕ) (s : Procs) → c ≢ t → Ready t s → Ready t (add_sched_back c i s)
unfolding add_sched_back
add_sched_back-Ready c i t s n r = elim (Bool-cases (ltb 3 i)) [
  | inl z ↦ rw z r
  | inr z ↦ rw z (record {
    state_ready = r.state_ready;
    on_fore = r.on_fore;
    on_back = λ e. elim (Bool-cases (i == (s.task t).sched_lv)) [
      | inl y ↦ rw y (contains-add_tail c t (s.back i) ∙ rw ((==_iff _ _).0 y, r.on_back e))
      | inr y ↦ rw y (r.on_back e)
    ];
    off_wait = r.off_wait;
  })
]

pub find_next_task-Ready :
    (t : ℕ) (s : Procs) → s.current ≢ t → Ready t s → Ready t (find_next_task s).1
unfolding find_next_task requeue
find_next_task-Ready t s n r = elim (Bool-cases ((s.task s.current).sched_lv == 0)) [
  | inl z ↦ rw z r
  | inr z ↦ rw z (elim (Bool-cases (ltb (s.task s.current).sched_lv 3)) [
    | inr y ↦ rw y r
    | inl y ↦ rw y (
        add_sched_back-Ready s.current _ t _ n (
          put_task-Ready s.current t _ (remove_sched s.current s) n
            (remove_sched-Ready s.current t s n r)))
  ])
]
