-- ===== src/Buddy/Give.antt =====
-- A block goes to its free list.
use os_final_program.Base.{
  ℕ, ◌*◌, ◌≤◌, ◌<◌, ◌≡◌, refl, sym, ap, ap₂, subst, ◌∙◌, ◌≢◌, inl, inr, Bool, true, false, ◌&&◌,
  ◌||◌, ◌∷◌, arith, ◌==◌, if◌then◌else◌, ==_iff, ==_refl, ==_ne, Bool-cases, contains,
}
use os_final_program.Buddy.{add_free, put_at, Buddy}
use os_final_program.Buddy.Halves.{down, base, up-total, up, up_mono}
use os_final_program.Buddy.Tiling.{Repaint, repaint-Tiling, set_level, set_free, within_block}
use os_final_program.Buddy.Rep.{Rep, Pending}

module _ (b : Buddy) (lv : ℕ → ℕ) (fr : ℕ → Bool) (n l h y : ℕ) (w : Pending b lv fr n l h y)
    (small : l ≤ 4) where
  give-Repaint : Repaint lv (n * 16) l h l (λ p. true)
  give-Repaint = record {
    finer = λ p e. omega (arith, level_of p e);
    level_le = omega arith;
    level_small = small;
    agrees = λ p q e g. refl;
    below = λ p e g. up-total p h n (up_mono l 4 p h small e) w.inside;
  }
    where
      level_of : (p : ℕ) → up l p ≡ up l h → lv p ≡ l
      level_of p e = w.rep.tiling.same h p (rw w.level e) ∙ w.level

  given_fr : ℕ → Bool
  given_fr = set_free l h (λ p. true) fr

  given_lv : ℕ → ℕ
  given_lv = set_level l h l lv

  fr_of : (p : ℕ) → up l p ≡ up l h → fr p ≡ false
  fr_of p e = w.rep.tiling.fr_same h p (rw w.level e) ∙ w.busy

  h_in : within_block l h h ≡ true
  h_in = ==_refl (up l h)

  h_ne : (t : ℕ) → within_block l h t ≡ false → h ≢ t
  h_ne t o e = cc (sym h_in ∙ ap (within_block l h) e ∙ o)

  -- Of the pages of the block, only the first is the first page of a block.
  only_first : (t : ℕ) → within_block l h t ≡ true → t ≡ base l t → h ≡ t
  only_first t u e = w.first ∙ ap (down l) (sym ((==_iff _ _).0 u)) ∙ sym e

  unlisted : (i t : ℕ) → within_block l h t ≡ true → contains (b.free_head i) t ≡ false
  unlisted i t u =
      w.rep.lists i t ∙ ap (λ k. k && ((lv t == i) && (t == base i t))) (fr_of t ((==_iff _ _).0 u))

  first_test : (t : ℕ) → within_block l h t ≡ true → (h == t) ≡ (t == base l t)
  first_test t u = elim (Bool-cases (t == base l t)) [
    | inl z ↦ rw z ((==_iff h t).1 (only_first t u ((==_iff _ _).0 z)))
    | inr z ↦
        rw z (==_ne h t (λ e. cc (sym z ∙ (==_iff _ _).1 (subst (λ k. k ≡ base l k) e w.first))))
  ]

  given_lists :
      (i t : ℕ)
      → contains (put_at b.free_head l (h ∷ b.free_head l) i) t
        ≡ (given_fr t && ((given_lv t == i) && (t == base i t)))
  unfolding given_fr given_lv
  given_lists i t = elim (Bool-cases (within_block l h t)) [
    | inr o ↦ elim (Bool-cases (l == i)) [
      | inl z ↦
          rw (z, o, ==_ne h t (h_ne t o))
            (ap (λ k. contains (b.free_head k) t) ((==_iff l i).0 z) ∙ w.rep.lists i t)
      | inr z ↦ rw (z, o) (w.rep.lists i t)
    ]
    | inl u ↦ elim (Bool-cases (l == i)) [
      | inl z ↦
          rw (z, u)
            (ap₂ ◌||◌ (first_test t u) (unlisted l t u)
              ∙ or_false (t == base l t)
              ∙ ap₂ ◌&&◌ (sym z) (ap (λ k. t == base k t) ((==_iff l i).0 z)))
      | inr z ↦ rw (z, u) (unlisted i t u ∙ ap (λ k. k && (t == base i t)) (sym z))
    ]
  ]
    where
      or_false : (a : Bool) → (a || false) ≡ a
      or_false a = ground arith

  given_levels :
      (t : ℕ) → t < n * 16 → t ≡ base (given_lv t) t → t ≢ y → put_at b.bplevel h l t ≡ given_lv t
  unfolding given_lv
  given_levels t i e v = elim (Bool-cases (within_block l h t)) [
    | inl u ↦
        let k : h ≡ t =
          only_first t u (subst (λ (v : Bool). t ≡ base (if v then l else lv t) t) u e) in
        rw (u, (==_iff h t).1 k) refl
    | inr o ↦
        let k : t ≡ base (lv t) t = subst (λ (v : Bool). t ≡ base (if v then l else lv t) t) o e in
        rw (o, ==_ne h t (h_ne t o)) (w.rep.levels t i k (λ g. h_ne t o (sym g)) v)
  ]

  given_flags :
      (t : ℕ)
      → t < n * 16
      → t ≡ base (given_lv t) t
      → t ≢ y
      → (put_at b.flag h 0 t == 0) ≡ given_fr t
  unfolding given_lv given_fr
  given_flags t i e v = elim (Bool-cases (within_block l h t)) [
    | inl u ↦
        let k : h ≡ t =
          only_first t u (subst (λ (v : Bool). t ≡ base (if v then l else lv t) t) u e) in
        rw (u, (==_iff h t).1 k) refl
    | inr o ↦
        let k : t ≡ base (lv t) t = subst (λ (v : Bool). t ≡ base (if v then l else lv t) t) o e in
        rw (o, ==_ne h t (h_ne t o)) (w.rep.flags t i k (λ g. h_ne t o (sym g)) v)
  ]

  -- A block that is given back.
  pub add_free-Rep :
      Rep (add_free b h l) (set_level l h l lv) (set_free l h (λ p. true) fr) (n * 16) (n * 16) y
  unfolding add_free given_lv given_fr
  add_free-Rep = record {
    tiling = repaint-Tiling lv fr (n * 16) l h l (λ p. true) w.rep.tiling give-Repaint;
    lists = given_lists;
    levels = λ t i e x v. given_levels t i e v;
    flags = λ t i e x v. given_flags t i e v;
  }
