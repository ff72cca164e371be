-- ===== src/Lock/Uses.antt =====
-- How often a lock can be taken.
use os_final_program.Base.{
  ℕ, ◌+◌, ◌<◌, ◌≡◌, sym, ap, subst, ◌∙◌, ◌⊎◌, inl, inr, Option, none, some, arith, length,
}
use os_final_program.Lock.{Lock, max_con, init_lock, do_lock, do_unlock}
use os_final_program.Lock.Slots.{
  free_count, do_lock-takes, do_unlock-frees_none, do_unlock-length, free_count-init, length-init,
}

-- A lock that has been given slots `n` times since `init_lock`, with releases in between.
pub data Uses : ℕ → Lock → Type 0 where
  fresh : Uses 0 init_lock
  locks :
      (n : ℕ) (l l' : Lock) (pid i : ℕ) → Uses n l → do_lock l pid ≡ some (i, l') → Uses (n + 1) l'
  unlocks : (n : ℕ) (l : Lock) (pid : ℕ) → Uses n l → Uses n (do_unlock l pid)

one_lock :
    (i i' : ℕ) (l l' : Lock) → ◌≡◌ {A = Option (ℕ × Lock)} (some (i, l)) (some (i', l')) → l ≡ l'
one_lock i i' l l' e = cc

slots_left :
    (n : ℕ) (l : Lock)
    → Uses n l
    → (length l.hash_map ≡ max_con) × (free_count l.hash_map + n ≡ max_con)
slots_left _ _ fresh = (length-init, omega (arith, free_count-init))
slots_left _ _ (locks n l l' pid i u e) = elim (do_lock-takes l pid (slots_left n l u).0) [
  | inl (x, z) ↦ absurd (cc (sym x ∙ e))
  | inr (j, m, x, k, z) ↦
      subst (λ w. (length w.hash_map ≡ max_con) × (free_count w.hash_map + (n + 1) ≡ max_con))
        (one_lock j i m l' (sym x ∙ e)) (k, omega (arith, z, (slots_left n l u).1))
]
slots_left _ _ (unlocks n l pid u) = (
  do_unlock-length l pid ∙ (slots_left n l u).0,
  ap (λ k. k + n) (do_unlock-frees_none l pid) ∙ (slots_left n l u).1,
)

-- Whatever releases stand in between, a lock gives a slot to the next process if it has been given
-- fewer than eight times since `init_lock`; after the eighth time it never gives one.
pub do_lock-eight_times :
    (n : ℕ) (l : Lock) (pid : ℕ)
    → Uses n l
    → ((n < 8) × ((i : ℕ) × (l' : Lock) × (do_lock l pid ≡ some (i, l'))))
      ⊎ ((n ≡ 8) × (do_lock l pid ≡ none))
do_lock-eight_times n l pid u =
    let s : (length l.hash_map ≡ max_con) × (free_count l.hash_map + n ≡ max_con) =
      slots_left n l u in
    elim (do_lock-takes l pid s.0) [
      | inl (x, z) ↦ inr (omega (arith, z, s.1), x)
      | inr (i, m, x, k, z) ↦ inl (omega (arith, z, s.1), (i, m, x))
    ]
