-- ===== src/Pc/QueueLaws.antt =====
-- The queues of kernel/pc/pc.c as sets: what unlinking and linking a task changes.
use os_final_program.Base.{
  ℕ, ◌≤◌, ◌≡◌, refl, sym, ap, subst, ◌∙◌, inl, inr, true, false, not, ◌&&◌, ◌||◌, List, [], ◌∷◌,
  arith, ltb, ◌==◌, ==_iff, ==_refl, Bool-cases, contains, contains-append,
}
use os_final_program.Pc.Queues.{
  Task, Procs, put_task, put_queue, unlink, add_tail, remove_sched, add_sched, add_sched_back,
}
use os_final_program.Pc.Life.{set_state}

pub contains-unlink :
    (c t : ℕ) (xs : List ℕ) → contains (unlink c xs) t ≡ (not (c == t) && contains xs t)
unfolding unlink
contains-unlink c t [] = ground arith
contains-unlink c t (x ∷ xs) = elim (Bool-cases (x == c)) [
  | inl e ↦ rw (e, contains-unlink c t xs, (==_iff x c).0 e) (ground arith)
  | inr n ↦
      rw (n, contains-unlink c t xs)
        (elim (Bool-cases (c == t)) [ inl d ↦ rw (d, ← (==_iff c t).0 d, n) | inr d ↦ rw d ])
]

pub contains_of_unlink :
    (c t : ℕ) (xs : List ℕ)
    → contains (unlink c xs) t ≡ true
    → (contains xs t ≡ true) × ((c == t) ≡ false)
contains_of_unlink c t xs h = ground (arith, contains-unlink c t xs)

pub contains-add_tail :
    (c t : ℕ) (xs : List ℕ) → contains (add_tail c xs) t ≡ (contains xs t || (c == t))
contains-add_tail c t xs = contains-append xs (c ∷ []) t ∙ ground arith

-- A task stands on no queue of a level other than its own: the foreground queue is level 0, and the
-- background queues are levels 1 to 3.
pub record Levels (s : Procs) : Type 0 where
  pub fore : (t : ℕ) → contains s.sched t ≡ true → (s.task t).sched_lv ≡ 0
  pub back :
      (i t : ℕ) → contains (s.back i) t ≡ true → ((s.task t).sched_lv ≡ i) × (1 ≤ i) × (i ≤ 3)

-- A task is on no run queue.
pub record Idle (t : ℕ) (s : Procs) : Type 0 where
  pub off_fore : contains s.sched t ≡ false
  pub off_back : (i : ℕ) → contains (s.back i) t ≡ false

pub remove_sched-Levels : (c : ℕ) (s : Procs) → Levels s → Levels (remove_sched c s)
unfolding remove_sched
remove_sched-Levels c s v = record {
  fore = λ t h. v.fore t (contains_of_unlink c t s.sched h).0;
  back = λ i t h. v.back i t (contains_of_unlink c t (s.back i) h).0;
}

pub remove_sched-Idle : (c : ℕ) (s : Procs) → Idle c (remove_sched c s)
unfolding remove_sched
remove_sched-Idle c s = record {
  off_fore = rw (contains-unlink c c s.sched, ==_refl c);
  off_back = λ i. rw (contains-unlink c c (s.back i), ==_refl c);
}

-- A task that is on no run queue may change.
pub put_task-Levels :
    (c : ℕ) (t' : Task) (s : Procs)
    → Idle c s
    → Levels s
    → Levels (record s { task = put_task s.task c t' })
put_task-Levels c t' s o v = record {
  fore = λ t h. elim (Bool-cases (c == t)) [
    | inl e ↦ absurd (cc (sym o.off_fore ∙ ap (contains s.sched) ((==_iff c t).0 e) ∙ h))
    | inr n ↦ rw n (v.fore t h)
  ];
  back = λ i t h. elim (Bool-cases (c == t)) [
    | inl e ↦ absurd (cc (sym (o.off_back i) ∙ ap (contains (s.back i)) ((==_iff c t).0 e) ∙ h))
    | inr n ↦ rw n (v.back i t h)
  ];
}

-- A change that keeps the task's level keeps the levels.
pub same_level-Levels :
    (c : ℕ) (t' : Task) (s : Procs)
    → t'.sched_lv ≡ (s.task c).sched_lv
    → Levels s
    → Levels (record s { task = put_task s.task c t' })
same_level-Levels c t' s e v = record {
  fore = λ t h. elim (Bool-cases (c == t)) [
    | inl d ↦ rw d (e ∙ ap (λ k. (s.task k).sched_lv) ((==_iff c t).0 d) ∙ v.fore t h)
    | inr n ↦ rw n (v.fore t h)
  ];
  back = λ i t h. elim (Bool-cases (c == t)) [
    | inl d ↦ rw d (
      e ∙ ap (λ k. (s.task k).sched_lv) ((==_iff c t).0 d) ∙ (v.back i t h).0,
      (v.back i t h).1,
      (v.back i t h).2,
    )
    | inr n ↦ rw n (v.back i t h)
  ];
}

pub set_state-Levels : (c v : ℕ) (s : Procs) → Levels s → Levels (set_state c v s)
set_state-Levels c v s = same_level-Levels c _ s refl

pub add_sched-Levels :
    (c : ℕ) (s : Procs) → (s.task c).sched_lv ≡ 0 → Levels s → Levels (add_sched c s)
unfolding add_sched
add_sched-Levels c s e v = record {
  fore = λ t h. elim (Bool-cases (c == t)) [
    | inl d ↦ ap (λ k. (s.task k).sched_lv) (sym ((==_iff c t).0 d)) ∙ e
    | inr n ↦ v.fore t (ground (arith, contains-add_tail c t s.sched))
  ];
  back = v.back;
}

-- A list to which one task of level `i` was added takes the place of the queue of the level.
pub put_queue-Levels :
    (c i : ℕ) (q : List ℕ) (s : Procs)
    → (s.task c).sched_lv ≡ i
    → 1 ≤ i
    → i ≤ 3
    → ((t : ℕ) → contains q t ≡ (contains (s.back i) t || (c == t)))
    → Levels s
    → Levels (record s { back = put_queue s.back i q })
put_queue-Levels c i q s e lo hi f v = record {
  fore = v.fore;
  back = λ j t. elim (Bool-cases (i == j)) [
    | inl d ↦
        let ij : i ≡ j = (==_iff i j).0 d in
        rw d (λ h. elim (Bool-cases (c == t)) [
          | inl k ↦ (
            ap (λ k. (s.task k).sched_lv) (sym ((==_iff c t).0 k)) ∙ e ∙ ij,
            rw ij at lo,
            rw ij at hi,
          )
          | inr n ↦
              let m : contains (s.back i) t ≡ true = ground (arith, f t) in
              v.back j t (subst (λ k. contains (s.back k) t ≡ true) ij m)
        ])
    | inr n ↦ rw n (v.back j t)
  ];
}

pub add_sched_back-Levels :
    (c i : ℕ) (s : Procs)
    → (s.task c).sched_lv ≡ i
    → 1 ≤ i
    → i ≤ 3
    → Levels s
    → Levels (add_sched_back c i s)
unfolding add_sched_back
add_sched_back-Levels c i s e lo hi v =
    let z : ltb 3 i ≡ false = ground arith in
    rw z (put_queue-Levels c i _ s e lo hi (λ t. contains-add_tail c t (s.back i)) v)
