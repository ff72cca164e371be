-- ===== src/Bytes/Names.antt =====
-- The comparison of file names decides their equality.
use os_final_program.Base.{
  ℕ, zero, suc, ◌+◌, ◌<◌, ◌≡◌, refl, sym, ◌∙◌, ◌⊎◌, inl, inr, true, false, List, arith, ◌==◌,
  ==_iff, Bool-cases,
}
use os_final_program.Bytes.{byte_at, Qstr, compare_from, generic_compare_filename}

SameFrom : List ℕ → List ℕ → ℕ → ℕ → Type 0
SameFrom a b i n = (k : ℕ) → k < n → byte_at a (i + k) ≡ byte_at b (i + k)

compare_from_lem :
    (a b : List ℕ) (i n : ℕ)
    → ((compare_from a b i n ≡ 0) × SameFrom a b i n)
      ⊎ ((compare_from a b i n ≡ 1) × ¬ SameFrom a b i n)
unfolding compare_from SameFrom
compare_from_lem a b i zero = inl (refl, λ k h. absurd (omega arith))
compare_from_lem a b i (suc n) = elim (Bool-cases (byte_at a i == byte_at b i)) [
  | inl t ↦ rw t (elim (compare_from_lem a b (i + 1) n) [
    | inl (e, same) ↦ inl (e, step t same)
    | inr (e, other) ↦ inr (e, λ all. other (λ k h. shift all k h))
  ])
  | inr f ↦ rw f (inr (refl, λ all. first f all))
]
  where
    step :
        (byte_at a i == byte_at b i) ≡ true
        → SameFrom a b (i + 1) n
        → (k : ℕ) → k < suc n
        → byte_at a (i + k) ≡ byte_at b (i + k)
    step t same zero h =
        let e : i + 0 ≡ i = omega arith in rw e ((==_iff (byte_at a i) (byte_at b i)).0 t)
    step t same (suc k) h =
        let e : i + suc k ≡ i + 1 + k = omega arith in rw e (same k (omega arith))

    shift :
        ((k : ℕ) → k < suc n → byte_at a (i + k) ≡ byte_at b (i + k))
        → (k : ℕ) → k < n
        → byte_at a (i + 1 + k) ≡ byte_at b (i + 1 + k)
    shift all k h = let e : i + 1 + k ≡ i + suc k = omega arith in rw e (all (suc k) (omega arith))

    first :
        (byte_at a i == byte_at b i) ≡ false
        → ((k : ℕ) → k < suc n → byte_at a (i + k) ≡ byte_at b (i + k))
        → ⊥
    first f all =
        let e : i + 0 ≡ i = omega arith in
        let s : byte_at a i ≡ byte_at b i = rw e at (all 0 (omega arith)) in
        cc (sym f ∙ (==_iff (byte_at a i) (byte_at b i)).1 s)

-- Two names are equal: their lengths agree, and all characters up to it.
pub SameName : Qstr → Qstr → Type 0
SameName a b = (a.len ≡ b.len) × ((k : ℕ) → k < a.len → byte_at a.name k ≡ byte_at b.name k)

-- The comparison returns 0 for equal names and 1 for all others.
pub generic_compare_filename-decides :
    (a b : Qstr)
    → ((generic_compare_filename a b ≡ 0) × SameName a b)
      ⊎ ((generic_compare_filename a b ≡ 1) × ¬ SameName a b)
unfolding generic_compare_filename SameName
generic_compare_filename-decides a b = elim (Bool-cases (a.len == b.len)) [
  | inl t ↦ rw t (elim (compare_from_lem a.name b.name 0 a.len) [
    | inl (e, same) ↦ inl (e, ((==_iff a.len b.len).0 t, λ k h. unfold SameFrom in zeroed same k h))
    | inr (e, other) ↦ inr (e, λ all. other (unfold SameFrom in λ k h. unzeroed all.1 k h))
  ])
  | inr f ↦ rw f (inr (refl, λ all. cc (sym f ∙ (==_iff a.len b.len).1 all.0)))
]
  where
    zeroed :
        ((k : ℕ) → k < a.len → byte_at a.name (0 + k) ≡ byte_at b.name (0 + k))
        → (k : ℕ) → k < a.len
        → byte_at a.name k ≡ byte_at b.name k
    zeroed all k h = let e : 0 + k ≡ k = omega arith in rw e at (all k h)

    unzeroed :
        ((k : ℕ) → k < a.len → byte_at a.name k ≡ byte_at b.name k)
        → (k : ℕ) → k < a.len
        → byte_at a.name (0 + k) ≡ byte_at b.name (0 + k)
    unzeroed all k h = let e : 0 + k ≡ k = omega arith in rw e (all k h)
