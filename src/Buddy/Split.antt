-- ===== src/Buddy/Split.antt =====
-- One round of the loop of `__alloc_pages`: a block is split, and its second half is free.
use os_final_program.Base.{
  ℕ, suc, ◌+◌, ◌*◌, ◌/◌, ◌^◌, ◌≤◌, ◌<◌, ◌≡◌, refl, sym, ap, subst, ◌∙◌, ◌≢◌, ◌⊎◌, inl, inr, Bool,
  true, false, ◌&&◌, ◌||◌, arith, ◌==◌, if◌then◌else◌, ==_iff, ==_refl, ==_ne, Bool-cases, contains,
  flip,
}
use os_final_program.Buddy.{Buddy, add_free}
use os_final_program.Buddy.Halves.{
  up, down, base, up-down, up_mono, up-suc, up-halves, flip-half, flip-ne, second-half, up-total,
}
use os_final_program.Buddy.Tiling.{
  Repaint, repaint-Tiling, set_level, set_free, within_block, in_block,
}
use os_final_program.Buddy.Rep.{Rep, Pending, never}
use os_final_program.Buddy.Give.{add_free-Rep}

module _ (b : Buddy) (lv : ℕ → ℕ) (fr : ℕ → Bool) (n m h : ℕ)
    (w : Pending b lv fr n (suc m) h (n * 16)) where
  low : suc m ≤ 4
  low = subst (λ k. k ≤ 4) w.level (w.rep.tiling.small h)

  -- The second half.
  abbrev pub mate : ℕ
  mate = h + 2 ^ m

  mate-flip : mate ≡ down m (flip (up m h))
  mate-flip = (second-half m h w.first).1

  h_first : h ≡ base m h
  h_first = (second-half m h w.first).0

  up-mate : up m mate ≡ flip (up m h)
  up-mate = ap (up m) mate-flip ∙ up-down m (flip (up m h))

  mate_first : mate ≡ base m mate
  mate_first = mate-flip ∙ ap (down m) (sym up-mate)

  mate_above : up (suc m) mate ≡ up (suc m) h
  mate_above = up-suc m _ ∙ ap (λ k. k / 2) up-mate ∙ flip-half (up m h) ∙ sym (up-suc m h)

  mate_inside : mate < n * 16
  mate_inside = up-total _ h n (up_mono (suc m) 4 _ h low mate_above) w.inside

  halves_apart : within_block m mate h ≡ false
  halves_apart = ==_ne _ _ (λ e. flip-ne (up m h) (sym up-mate ∙ sym e))

  level_of : (p : ℕ) → up (suc m) p ≡ up (suc m) h → lv p ≡ suc m
  level_of p e = w.rep.tiling.same h p (rw w.level e) ∙ w.level

  fr_of : (p : ℕ) → up (suc m) p ≡ up (suc m) h → fr p ≡ false
  fr_of p e = w.rep.tiling.fr_same h p (rw w.level e) ∙ w.busy

  split-Repaint : Repaint lv (n * 16) (suc m) h m (λ p. false)
  split-Repaint = record {
    finer = λ p e. omega (arith, level_of p e);
    level_le = omega arith;
    level_small = omega (arith, low);
    agrees = λ p q e g. refl;
    below = λ p e g. absurd (cc);
  }

  halved_lv : ℕ → ℕ
  halved_lv = set_level (suc m) h m lv

  halved_fr : ℕ → Bool
  halved_fr = set_free (suc m) h (λ p. false) fr

  mate_in : within_block (suc m) h mate ≡ true
  mate_in = in_block (suc m) h _ mate_above

  h_in : within_block (suc m) h h ≡ true
  h_in = ==_refl (up (suc m) h)

  h_ne : (t : ℕ) → within_block (suc m) h t ≡ false → t ≢ h
  h_ne t o e = cc (sym h_in ∙ ap (within_block (suc m) h) (sym e) ∙ o)

  two_firsts : (t : ℕ) → within_block (suc m) h t ≡ true → t ≡ base m t → (t ≡ h) ⊎ (t ≡ mate)
  two_firsts t u e = elim (up-halves m t h ((==_iff _ _).0 u)) [
    | inl x ↦ inl (e ∙ ap (down m) x ∙ sym h_first)
    | inr x ↦ inr (e ∙ ap (down m) (x ∙ sym up-mate) ∙ sym mate_first)
  ]

  same_marks :
      (t : ℕ)
      → t < n * 16
      → t ≡ base (halved_lv t) t
      → t ≢ mate
      → t ≢ h
      → (b.bplevel t ≡ halved_lv t) × ((b.flag t == 0) ≡ halved_fr t)
  unfolding halved_lv halved_fr
  same_marks t i e x y = elim (Bool-cases (within_block (suc m) h t)) [
    | inl u ↦ elim (two_firsts t u (subst (λ (v : Bool). t ≡ base (if v then m else lv t) t) u e)) [
      | inl z ↦ absurd (y z)
      | inr z ↦ absurd (x z)
    ]
    | inr o ↦
        let k : t ≡ base (lv t) t = subst (λ (v : Bool). t ≡ base (if v then m else lv t) t) o e in
        rw o (w.rep.levels t i k y (never n t i), w.rep.flags t i k y (never n t i))
  ]

  same_lists :
      (i t : ℕ)
      → contains (b.free_head i) t ≡ (halved_fr t && ((halved_lv t == i) && (t == base i t)))
  unfolding halved_lv halved_fr
  same_lists i t = elim (Bool-cases (within_block (suc m) h t)) [
    | inl u ↦ rw u (
        w.rep.lists i t
        ∙ ap (λ k. k && ((lv t == i) && (t == base i t))) (fr_of t ((==_iff _ _).0 u)))
    | inr o ↦ rw o (w.rep.lists i t)
  ]

  mate-Pending : Pending b halved_lv halved_fr n m mate h
  unfolding halved_lv halved_fr
  mate-Pending = record {
    rep = record {
      tiling = repaint-Tiling lv fr (n * 16) (suc m) h m (λ p. false) w.rep.tiling split-Repaint;
      lists = same_lists;
      levels = λ t i e x y. (same_marks t i e x y).0;
      flags = λ t i e x y. (same_marks t i e x y).1;
    };
    level = rw mate_in refl;
    busy = rw mate_in refl;
    first = mate_first;
    inside = mate_inside;
  }

  abbrev pub split_lv : ℕ → ℕ
  split_lv = set_level m mate m (set_level (suc m) h m lv)

  abbrev pub split_fr : ℕ → Bool
  split_fr = set_free m mate (λ p. true) (set_free (suc m) h (λ p. false) fr)

  pub split-Pending : Pending (add_free b mate m) split_lv split_fr n m h (n * 16)
  unfolding halved_lv halved_fr
  split-Pending =
      let r : Rep (add_free b mate m) split_lv split_fr (n * 16) (n * 16) h =
        add_free-Rep b halved_lv halved_fr n m mate h mate-Pending (omega (arith, low)) in
      record {
        rep = record {
          tiling = r.tiling;
          lists = r.lists;
          levels = λ t i e x y. r.levels t i e y x;
          flags = λ t i e x y. r.flags t i e y x;
        };
        level = rw (halves_apart, h_in) refl;
        busy = rw (halves_apart, h_in) refl;
        first = h_first;
        inside = w.inside;
      }

  inner :
      (q p : ℕ)
      → up (suc m) q ≡ up (suc m) h
      → within_block (suc m) h p ≡ false
      → within_block m q p ≡ false
  inner q p e o = elim (Bool-cases (within_block m q p)) [
    | inr z ↦ z
    | inl z ↦
        let k : up (suc m) p ≡ up (suc m) q =
          up_mono m (suc m) p q (omega arith) ((==_iff _ _).0 z) in
        cc (sym (in_block (suc m) h p (k ∙ e)) ∙ o)
  ]

  -- The pages that are free or in the block that is being split stay the same.
  pub split_union :
      (p : ℕ) → (within_block m h p || split_fr p) ≡ (within_block (suc m) h p || fr p)
  split_union p = elim (Bool-cases (within_block (suc m) h p)) [
    | inl u ↦ elim (up-halves m p h ((==_iff _ _).0 u)) [
      | inl x ↦ rw (in_block m h p x, u)
      | inr x ↦ rw (u, in_block m mate p (x ∙ sym up-mate)) (or_true (within_block m h p))
    ]
    | inr o ↦ rw (o, inner h p refl o, inner mate p mate_above o)
  ]
    where
      or_true : (a : Bool) → (a || true) ≡ true
      or_true a = ground arith

  pub split_outside : (p : ℕ) → within_block (suc m) h p ≡ false → split_lv p ≡ lv p
  split_outside p o = rw (inner mate p mate_above o, o) refl

  pub mate_ne : mate ≢ h
  mate_ne e = flip-ne (up m h) (sym up-mate ∙ ap (up m) e)
