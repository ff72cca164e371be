-- ===== src/Bitmap.antt =====
-- A bitmap, as kernel/pc/pid.c and kernel/vfs/utils.c keep it, read and written as a set of indices.
use native.Mathlib.Decide.{ℕ_discrete}
use os_final_program.Base.{
  ℕ, ◌-◌, ◌/◌, ◌%◌, ◌^◌, ◌<◌, bit_and, bit_or, ◌≡◌, ap, ◌∙◌, Bool, not, ◌&&◌, ◌||◌, List, arith,
  ◌==◌, if◌then◌else◌, ==_refl, ==_ne, get_or, set, length, get_or-set, byte_test, byte_test-set,
  byte_test-clear,
}

unfoldable pub bit_at : List ℕ → ℕ → Bool
bit_at m p = byte_test (get_or m (p / 8) 0) (p % 8)

-- In one byte, two identifiers are told apart by their offset.
same_byte : (p q : ℕ) → p / 8 ≡ q / 8 → (p % 8 == q % 8) ≡ (p == q)
same_byte p q e = elim (ℕ_discrete p q) [
  | yes r ↦ rw (r, ==_refl q, ==_refl (q % 8))
  | no n ↦ rw (==_ne p q n, ==_ne (p % 8) (q % 8) (omega arith))
]

bit_at_write :
    (m : List ℕ) (p q v : ℕ)
    → p / 8 < length m
    → bit_at (set m (p / 8) v) q ≡ (if p / 8 == q / 8 then byte_test v (q % 8) else bit_at m q)
unfolding bit_at
bit_at_write m p q v h = elim (ℕ_discrete (p / 8) (q / 8)) [
  | yes e ↦
      ap (λ b. byte_test b (q % 8)) (get_or-set m (p / 8) (q / 8) v 0 h) ∙ rw (e, ==_refl (q / 8))
  | no n ↦
      ap (λ b. byte_test b (q % 8)) (get_or-set m (p / 8) (q / 8) v 0 h)
      ∙ rw (==_ne (p / 8) (q / 8) n)
]

module _ (m : List ℕ) (p q : ℕ) (inside : p / 8 < length m)
    (bytes : (i : ℕ) → get_or m i 0 < 256) where
  pub bit_at-set :
      bit_at (set m (p / 8) (bit_or (get_or m (p / 8) 0) (2 ^ (p % 8)))) q
      ≡ ((p == q) || bit_at m q)
  unfolding bit_at
  bit_at-set = bit_at_write m p q _ inside ∙ elim (ℕ_discrete (p / 8) (q / 8)) [
    | yes e ↦
        rw (e, ==_refl (q / 8))
          (byte_test-set _ _ _ (bytes (q / 8)) (omega arith) (omega arith)
            ∙ ap (λ t. t || bit_at m q) (same_byte p q e))
    | no n ↦ rw (==_ne (p / 8) (q / 8) n, ==_ne p q (λ e. n (ap (λ k. k / 8) e)))
  ]

  pub bit_at-clear :
      bit_at (set m (p / 8) (bit_and (get_or m (p / 8) 0) (255 - 2 ^ (p % 8)))) q
      ≡ (not (p == q) && bit_at m q)
  unfolding bit_at
  bit_at-clear = bit_at_write m p q _ inside ∙ elim (ℕ_discrete (p / 8) (q / 8)) [
    | yes e ↦
        rw (e, ==_refl (q / 8))
          (byte_test-clear _ _ _ (bytes (q / 8)) (omega arith) (omega arith)
            ∙ ap (λ t. not t && bit_at m q) (same_byte p q e))
    | no n ↦ rw (==_ne (p / 8) (q / 8) n, ==_ne p q (λ e. n (ap (λ k. k / 8) e)))
  ]

-- A write of a byte keeps the array an array of bytes.
pub bytes-set :
    (m : List ℕ) (i v : ℕ)
    → i < length m
    → v < 256
    → ((j : ℕ) → get_or m j 0 < 256)
    → (j : ℕ) → get_or (set m i v) j 0 < 256
bytes-set m i v h hv bytes j = elim (ℕ_discrete i j) [
  | yes e ↦ rw (get_or-set m i j v 0 h, e, ==_refl j) hv
  | no n ↦ rw (get_or-set m i j v 0 h, ==_ne i j n) (bytes j)
]
