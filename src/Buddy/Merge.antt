-- ===== src/Buddy/Merge.antt =====
-- One round of the loop of `__free_pages`.
use os_final_program.Base.{
  ℕ, suc, ◌*◌, ◌/◌, ◌^◌, ◌≤◌, ◌<◌, bit_and, bit_xor, ◌≡◌, refl, sym, ap, subst, ◌∙◌, ◌≢◌, ◌⊎◌, inl,
  inr, Bool, true, false, not, ◌&&◌, arith, leb, ◌==◌, if◌then◌else◌, ==_iff, ==_refl, ==_ne,
  Bool-cases, contains, flip,
}
use os_final_program.Pc.QueueLaws.{contains-unlink}
use os_final_program.Buddy.{Buddy, join, unlink}
use os_final_program.Buddy.Halves.{
  up, down, base, up-down, up_mono, up-suc, up-halves, flip-half, flip-ne, pair-flip, base_lower,
  up-total, and-base,
}
use os_final_program.Buddy.Tiling.{
  Tiling, Repaint, set_free, set_level, within_block, in_block, repaint-Tiling,
}
use os_final_program.Buddy.Rep.{Pending, never}

abbrev pub pair_of : ℕ → ℕ → ℕ
pair_of l h = bit_xor h (2 ^ l)

module _ (b : Buddy) (lv : ℕ → ℕ) (fr : ℕ → Bool) (n l h : ℕ) (w : Pending b lv fr n l h (n * 16))
    (low : l < 4) (m : b.bplevel (pair_of l h) ≡ l) (f : b.flag (pair_of l h) ≡ 0) where
  tiled : Tiling lv fr (n * 16)
  tiled = w.rep.tiling

  up-pair : up l (pair_of l h) ≡ flip (up l h)
  up-pair = ap (up l) (pair-flip l h w.first) ∙ up-down l (flip (up l h))

  pair_above : up (suc l) (pair_of l h) ≡ up (suc l) h
  pair_above = up-suc l _ ∙ ap (λ k. k / 2) up-pair ∙ flip-half (up l h) ∙ sym (up-suc l h)

  pair_first : pair_of l h ≡ base l (pair_of l h)
  pair_first = pair-flip l h w.first ∙ ap (down l) (sym up-pair)

  pair_inside : pair_of l h < n * 16
  pair_inside = up-total _ h n (up_mono (suc l) 4 _ h (omega (arith, low)) pair_above) w.inside

  pair_ne : pair_of l h ≢ h
  pair_ne e = flip-ne (up l h) (sym up-pair ∙ ap (up l) e)

  pair_le : lv (pair_of l h) ≤ l
  pair_le = elim (Bool-cases (leb (lv (pair_of l h)) l)) [
    | inl z ↦ ground (arith, z)
    | inr z ↦
        let g : suc l ≤ lv (pair_of l h) = ground (arith, z) in
        let e : lv h ≡ lv (pair_of l h) =
          tiled.same (pair_of l h) h (up_mono (suc l) _ h _ g (sym pair_above)) in
        absurd (omega (arith, g, e, w.level))
  ]

  pair_marked : pair_of l h ≡ base (lv (pair_of l h)) (pair_of l h)
  pair_marked = base_lower l (lv (pair_of l h)) (pair_of l h) pair_le pair_first

  pub pair_level : lv (pair_of l h) ≡ l
  pair_level = sym (w.rep.levels _ pair_inside pair_marked pair_ne (never n _ pair_inside)) ∙ m

  pub pair_free : fr (pair_of l h) ≡ true
  pair_free =
      sym (w.rep.flags _ pair_inside pair_marked pair_ne (never n _ pair_inside))
      ∙ ap (λ k. k == 0) f

  -- A page of the block above is in one of the two.
  pub either :
      (p : ℕ)
      → up (suc l) p ≡ up (suc l) h
      → ((up l p ≡ up l h) × (lv p ≡ l) × (fr p ≡ false))
        ⊎ ((up l p ≡ up l (pair_of l h)) × (lv p ≡ l) × (fr p ≡ true))
  either p e = elim (up-halves l p h e) [
    | inl u ↦
        inl (
          u,
          tiled.same h p (at h w.level u) ∙ w.level,
          tiled.fr_same h p (at h w.level u) ∙ w.busy,
        )
    | inr u ↦
        let v : up l p ≡ up l (pair_of l h) = u ∙ sym up-pair in
        inr (
          v,
          tiled.same _ p (at _ pair_level v) ∙ pair_level,
          tiled.fr_same _ p (at _ pair_level v) ∙ pair_free,
        )
  ]
    where
      at : (q : ℕ) → lv q ≡ l → up l p ≡ up l q → up (lv q) p ≡ up (lv q) q
      at q k u = rw k u

  merge-Repaint : Repaint lv (n * 16) (suc l) h (suc l) (λ p. false)
  merge-Repaint = record {
    finer = λ p e. elim (either p e) [ inl x ↦ omega (arith, x.1) | inr x ↦ omega (arith, x.1) ];
    level_le = omega arith;
    level_small = omega (arith, low);
    agrees = λ p q e g. refl;
    below = λ p e g. absurd (cc);
  }

  lv' : ℕ → ℕ
  lv' = set_level (suc l) h (suc l) lv

  fr' : ℕ → Bool
  fr' = set_free (suc l) h (λ p. false) fr

  pair_in : within_block (suc l) h (pair_of l h) ≡ true
  pair_in = in_block (suc l) h _ pair_above

  -- A page outside of the block above is neither of the two.
  apart : (t z : ℕ) → within_block (suc l) h t ≡ false → within_block (suc l) h z ≡ true → z ≢ t
  apart t z o i e = cc (sym i ∙ ap (within_block (suc l) h) e ∙ o)

  merged_lists :
      (i t : ℕ)
      → contains (unlink (pair_of l h) (b.free_head i)) t
        ≡ (fr' t && ((lv' t == i) && (t == base i t)))
  unfolding lv' fr'
  merged_lists i t =
      contains-unlink (pair_of l h) t (b.free_head i)
      ∙ ap (λ k. not (pair_of l h == t) && k) (w.rep.lists i t)
      ∙ elim (Bool-cases (within_block (suc l) h t)) [
        | inr o ↦ rw (o, ==_ne _ t (apart t _ o pair_in))
        | inl u ↦ rw u (gone (either t ((==_iff _ _).0 u)))
      ]
    where
      gone :
          ((up l t ≡ up l h) × (lv t ≡ l) × (fr t ≡ false))
            ⊎ ((up l t ≡ up l (pair_of l h)) × (lv t ≡ l) × (fr t ≡ true))
          → (not (pair_of l h == t) && (fr t && ((lv t == i) && (t == base i t)))) ≡ false
      gone (inl x) = ground (arith, x.2)
      gone (inr x) = elim (Bool-cases ((lv t == i) && (t == base i t))) [
        | inr z ↦ ground (arith, z)
        | inl z ↦
            let li : lv t ≡ i = (==_iff _ _).0 (ground (arith, z)) in
            let tb : t ≡ base i t = (==_iff _ _).0 (ground (arith, z)) in
            let e : pair_of l h ≡ t =
              pair_first ∙ ap (down l) (sym x.0) ∙ ap (λ k. base k t) (sym x.1 ∙ li) ∙ sym tb in
            rw ((==_iff _ _).1 e)
      ]

  next : ℕ
  next = bit_and (pair_of l h) h

  pub next_base : bit_and (pair_of l h) h ≡ base (suc l) h
  next_base = and-base l h w.first

  pub next_above : up (suc l) (bit_and (pair_of l h) h) ≡ up (suc l) h
  next_above = ap (up (suc l)) next_base ∙ up-down (suc l) (up (suc l) h)

  -- No page of the block above but its first is the first page of a block.
  not_first :
      (t : ℕ) → within_block (suc l) h t ≡ true → t ≡ base (lv' t) t → t ≡ bit_and (pair_of l h) h
  unfolding lv'
  not_first t u e =
      let k : t ≡ base (suc l) t =
        subst (λ (v : Bool). t ≡ base (if v then suc l else lv t) t) u e in
      k ∙ ap (down (suc l)) ((==_iff _ _).0 u) ∙ sym next_base

  lv_out : (t : ℕ) → within_block (suc l) h t ≡ false → lv' t ≡ lv t
  unfolding lv'
  lv_out t o = rw o refl

  h_in : within_block (suc l) h h ≡ true
  h_in = ==_refl (up (suc l) h)

  merged_levels :
      (t : ℕ)
      → t < n * 16
      → t ≡ base (lv' t) t
      → t ≢ bit_and (pair_of l h) h
      → (join b h (pair_of l h) l).bplevel t ≡ lv' t
  unfolding join
  merged_levels t i e x = elim (Bool-cases (within_block (suc l) h t)) [
    | inl u ↦ absurd (x (not_first t u e))
    | inr o ↦
        let k : t ≡ base (lv t) t = subst (λ v. t ≡ base v t) (lv_out t o) e in
        let old : b.bplevel t ≡ lv' t =
          w.rep.levels t i k (λ g. apart t h o h_in (sym g)) (never n t i) ∙ sym (lv_out t o) in
        elim (Bool-cases (bit_and (pair_of l h) h == pair_of l h)) [
          | inl q ↦ rw (q, ==_ne _ t (apart t _ o pair_in)) old
          | inr q ↦ rw (q, ==_ne h t (apart t h o h_in)) old
        ]
  ]

  merged_flags :
      (t : ℕ)
      → t < n * 16
      → t ≡ base (lv' t) t
      → t ≢ bit_and (pair_of l h) h
      → (b.flag t == 0) ≡ fr' t
  unfolding fr'
  merged_flags t i e x = elim (Bool-cases (within_block (suc l) h t)) [
    | inl u ↦ absurd (x (not_first t u e))
    | inr o ↦
        let k : t ≡ base (lv t) t = subst (λ v. t ≡ base v t) (lv_out t o) e in
        w.rep.flags t i k (λ g. apart t h o h_in (sym g)) (never n t i) ∙ rw o refl
  ]

  -- After the round, the block above is the one that is being freed.
  pub merge-Pending :
      Pending
        (join b h (pair_of l h) l)
        (set_level (suc l) h (suc l) lv)
        (set_free (suc l) h (λ p. false) fr)
        n
        (suc l)
        (bit_and (pair_of l h) h)
        (n * 16)
  unfolding join lv' fr'
  merge-Pending =
      let i : within_block (suc l) h (bit_and (pair_of l h) h) ≡ true =
        in_block (suc l) h _ next_above in
      record {
        rep = record {
          tiling = repaint-Tiling lv fr (n * 16) (suc l) h (suc l) (λ p. false) tiled merge-Repaint;
          lists = merged_lists;
          levels = λ t i e x y. merged_levels t i e x;
          flags = λ t i e x y. merged_flags t i e x;
        };
        level = rw i refl;
        busy = rw i refl;
        first = next_base ∙ ap (down (suc l)) (sym next_above);
        inside = up-total _ h n (up_mono (suc l) 4 _ h (omega (arith, low)) next_above) w.inside;
      }
