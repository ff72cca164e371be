-- ===== src/Buddy/Tiling.antt =====
-- How blocks tile the pages: the level of the block that a page is in, and whether that block is free.
use os_final_program.Base.{
  ℕ, ◌≤◌, ◌<◌, ◌≡◌, sym, subst, ◌∙◌, inl, inr, Bool, true, false, ◌==◌, if◌then◌else◌, ==_iff,
  Bool-cases,
}
use os_final_program.Buddy.Halves.{up, up_mono}

-- Pages of one block agree on the block's level and on its being free; the free ones lie below `total`.
pub record Tiling (lv : ℕ → ℕ) (fr : ℕ → Bool) (total : ℕ) : Type 0 where
  pub small : (p : ℕ) → lv p ≤ 4
  pub same : (p q : ℕ) → up (lv p) q ≡ up (lv p) p → lv q ≡ lv p
  pub fr_same : (p q : ℕ) → up (lv p) q ≡ up (lv p) p → fr q ≡ fr p
  pub inside : (p : ℕ) → fr p ≡ true → p < total

-- `p` is in the block of level `l` around `h`.
abbrev pub within_block : ℕ → ℕ → ℕ → Bool
within_block l h p = up l p == up l h

abbrev pub set_level : ℕ → ℕ → ℕ → (ℕ → ℕ) → ℕ → ℕ
set_level l h n lv p = if within_block l h p then n else lv p

abbrev pub set_free : ℕ → ℕ → (ℕ → Bool) → (ℕ → Bool) → ℕ → Bool
set_free l h g fr p = if within_block l h p then g p else fr p

pub in_block : (l h p : ℕ) → up l p ≡ up l h → within_block l h p ≡ true
in_block l h p e = (==_iff _ _).1 e

-- What replaces the blocks inside one larger block.
pub record Repaint (lv : ℕ → ℕ) (total l h n : ℕ) (g : ℕ → Bool) : Type 0 where
  pub finer : (p : ℕ) → up l p ≡ up l h → lv p ≤ l
  pub level_le : n ≤ l
  pub level_small : n ≤ 4
  pub agrees : (p q : ℕ) → up l p ≡ up l h → up n q ≡ up n p → g q ≡ g p
  pub below : (p : ℕ) → up l p ≡ up l h → g p ≡ true → p < total

module _ (lv : ℕ → ℕ) (fr : ℕ → Bool) (total l h n : ℕ) (g : ℕ → Bool) (t : Tiling lv fr total)
    (r : Repaint lv total l h n g) where
  -- A block outside does not meet the larger block.
  outside :
      (p q : ℕ)
      → within_block l h p ≡ false
      → up (lv p) q ≡ up (lv p) p
      → within_block l h q ≡ false
  outside p q o e = elim (Bool-cases (within_block l h q)) [
    | inr z ↦ z
    | inl z ↦
        let i : up l q ≡ up l h = (==_iff _ _).0 z in
        let k : lv p ≤ l = subst (λ m. m ≤ l) (t.same p q e) (r.finer q i) in
        cc (sym (in_block l h p (sym (up_mono (lv p) l q p k e) ∙ i)) ∙ o)
  ]

  within : (p q : ℕ) → within_block l h p ≡ true → up n q ≡ up n p → within_block l h q ≡ true
  within p q i e = in_block l h q (up_mono n l q p r.level_le e ∙ (==_iff _ _).0 i)

  pub repaint-Tiling : Tiling (set_level l h n lv) (set_free l h g fr) total
  repaint-Tiling = record {
    small = λ p. elim (Bool-cases (within_block l h p)) [
      | inl i ↦ rw i r.level_small
      | inr o ↦ rw o (t.small p)
    ];
    same = λ p q. elim (Bool-cases (within_block l h p)) [
      | inl i ↦ rw i (λ e. rw (within p q i e))
      | inr o ↦ rw o (λ e. rw (outside p q o e) (t.same p q e))
    ];
    fr_same = λ p q. elim (Bool-cases (within_block l h p)) [
      | inl i ↦ rw i (λ e. rw (within p q i e) (r.agrees p q ((==_iff _ _).0 i) e))
      | inr o ↦ rw o (λ e. rw (outside p q o e) (t.fr_same p q e))
    ];
    inside = λ p. elim (Bool-cases (within_block l h p)) [
      | inl i ↦ rw i (r.below p ((==_iff _ _).0 i))
      | inr o ↦ rw o (t.inside p)
    ];
  }
