-- ===== src/Buddy/Free.antt =====
-- `__free_pages`.
use os_final_program.Base.{
  ℕ, zero, suc, ◌+◌, ◌-◌, ◌*◌, ◌≤◌, ◌<◌, bit_and, ◌≡◌, refl, sym, ap, subst, ◌∙◌, inl, inr, Bool,
  true, false, ◌&&◌, ◌||◌, arith, ◌==◌, if◌then◌else◌, ==_iff, Bool-cases,
}
use mathlib.Core.Path.{fun_ext}
use os_final_program.Buddy.{add_free, Buddy, join, combine, free_block, add_combined}
use os_final_program.Buddy.Halves.{base, up, up_mono}
use os_final_program.Buddy.Tiling.{set_level, set_free, within_block, in_block}
use os_final_program.Buddy.Rep.{Rep, Pending}
use os_final_program.Buddy.Give.{add_free-Rep}
use os_final_program.Buddy.Merge.{pair_of, either, next_above, merge-Pending}

-- What the loop keeps: the pages that are free or in the block that is being freed, and the levels of
-- all blocks outside of it.
record Reached (lv0 : ℕ → ℕ) (fr0 : ℕ → Bool) (n : ℕ) (r : Buddy × ℕ × ℕ) : Type 0 where
  lv : ℕ → ℕ
  fr : ℕ → Bool
  pending : Pending r.0 lv fr n r.2 r.1 (n * 16)
  union : (p : ℕ) → (within_block r.2 r.1 p || fr p) ≡ fr0 p
  levels : (p : ℕ) → within_block r.2 r.1 p ≡ false → lv p ≡ lv0 p

larger : (l h p : ℕ) → within_block (suc l) h p ≡ false → within_block l h p ≡ false
larger l h p o = elim (Bool-cases (within_block l h p)) [
  | inr z ↦ z
  | inl z ↦
      cc (sym o ∙ in_block (suc l) h p (up_mono l (suc l) p h (omega arith) ((==_iff _ _).0 z)))
]

same_block : (l h k p : ℕ) → up l k ≡ up l h → within_block l k p ≡ within_block l h p
same_block l h k p e = rw e

or_true : (a : Bool) → (a || true) ≡ true
or_true a = ground arith

combine-Reached :
    (lv0 : ℕ → ℕ) (fr0 : ℕ → Bool) (n r l : ℕ) (b : Buddy) (h : ℕ)
    → l + r ≡ 4
    → Reached lv0 fr0 n (b, h, l)
    → Reached lv0 fr0 n (combine r b h l)
unfolding combine
combine-Reached lv0 fr0 n zero l b h e s = s
combine-Reached lv0 fr0 n (suc r) l b h e s =
    elim (Bool-cases ((b.bplevel (pair_of l h) == l) && (b.flag (pair_of l h) == 0))) [
      | inr z ↦ rw z s
      | inl z ↦ rw z (
          combine-Reached lv0 fr0 n r (l + 1) (join b h (pair_of l h) l) (bit_and (pair_of l h) h)
            (omega (arith, e))
            (round ((==_iff _ _).0 (ground (arith, z))) ((==_iff _ _).0 (ground (arith, z)))))
    ]
  where
    round :
        b.bplevel (pair_of l h) ≡ l
        → b.flag (pair_of l h) ≡ 0
        → Reached lv0 fr0 n (join b h (pair_of l h) l, bit_and (pair_of l h) h, l + 1)
    round m f =
        subst (λ k. Reached lv0 fr0 n (join b h (pair_of l h) l, bit_and (pair_of l h) h, k))
          (omega arith)
          (record {
            lv = set_level (suc l) h (suc l) s.lv;
            fr = set_free (suc l) h (λ p. false) s.fr;
            pending = merge-Pending b s.lv s.fr n l h s.pending (omega (arith, e)) m f;
            union = λ p. rw (same_block (suc l) h _ p above) (union p);
            levels = λ p o.
                let k : within_block (suc l) h p ≡ false =
                  sym (same_block (suc l) h _ p above) ∙ o in
                rw k (s.levels p (larger l h p k));
          })
      where
        above : up (suc l) (bit_and (pair_of l h) h) ≡ up (suc l) h
        above = next_above b s.lv s.fr n l h s.pending (omega (arith, e)) m f

        union :
            (p : ℕ)
            → (within_block (suc l) h p || (if within_block (suc l) h p then false else s.fr p))
              ≡ fr0 p
        union p = elim (Bool-cases (within_block (suc l) h p)) [
          | inr o ↦ rw o (ap (λ k. k || s.fr p) (sym (larger l h p o)) ∙ s.union p)
          | inl u ↦
              rw u
                (elim (either b s.lv s.fr n l h s.pending (omega (arith, e)) m f p
                  ((==_iff _ _).0 u)) [
                    | inl x ↦ sym (ap (λ k. k || s.fr p) (in_block l h p x.0)) ∙ s.union p
                    | inr x ↦
                        sym (ap (λ k. within_block l h p || k) x.2 ∙ or_true (within_block l h p))
                        ∙ s.union p
                  ])
        ]

-- From pages that stand for a tiling, of which the block of level `l` at `h` is in use: `__free_pages` of
-- that block leaves pages that stand for a tiling, in which exactly the pages free before and
-- those of the block are free; a block that is still in use keeps its level.
pub free_block-Frees :
    (b : Buddy) (lv : ℕ → ℕ) (fr : ℕ → Bool) (n l h : ℕ)
    → Rep b lv fr (n * 16) (n * 16) (n * 16)
    → lv h ≡ l
    → fr h ≡ false
    → h ≡ base l h
    → h < n * 16
    → (lv' : ℕ → ℕ) × Rep
        (free_block b h l)
        lv'
        (λ p. within_block l h p || fr p)
        (n * 16)
        (n * 16)
        (n * 16)
      × ((p : ℕ) → (within_block l h p || fr p) ≡ false → lv' p ≡ lv p)
unfolding free_block add_combined
free_block-Frees b lv fr n l h v e f a i = (
  set_level (combine (4 - l) b h l).2 (combine (4 - l) b h l).1 (combine (4 - l) b h l).2 r.lv,
  last,
  kept,
)
  where
    small : l ≤ 4
    small = subst (λ k. k ≤ 4) e (v.tiling.small h)

    r : Reached lv (λ p. within_block l h p || fr p) n (combine (4 - l) b h l)
    r =
        combine-Reached lv (λ p. within_block l h p || fr p) n (4 - l) l b h (omega (arith, small))
          (record {
            lv = lv;
            fr = fr;
            pending = record {
              rep = record {
                tiling = v.tiling;
                lists = v.lists;
                levels = λ t j k x y. v.levels t j k y y;
                flags = λ t j k x y. v.flags t j k y y;
              };
              level = e;
              busy = f;
              first = a;
              inside = i;
            };
            union = λ p. refl;
            levels = λ p o. refl;
          })

    c : Buddy × ℕ × ℕ
    c = combine (4 - l) b h l

    target : set_free c.2 c.1 (λ p. true) r.fr ≡ (λ p. within_block l h p || fr p)
    target = fun_ext λ p. elim (Bool-cases (within_block c.2 c.1 p)) [
      | inl u ↦ rw u (sym (ap (λ k. k || r.fr p) u) ∙ r.union p)
      | inr o ↦ rw o (sym (ap (λ k. k || r.fr p) o) ∙ r.union p)
    ]

    last :
        Rep
          (add_free c.0 c.1 c.2)
          (set_level c.2 c.1 c.2 r.lv)
          (λ p. within_block l h p || fr p)
          (n * 16)
          (n * 16)
          (n * 16)
    last =
        subst
          (λ g.
            Rep (add_free c.0 c.1 c.2) (set_level c.2 c.1 c.2 r.lv) g (n * 16) (n * 16) (n * 16))
          target
          (add_free-Rep c.0 r.lv r.fr n c.2 c.1 (n * 16) r.pending
            (subst (λ k. k ≤ 4) r.pending.level (r.pending.rep.tiling.small c.1)))

    kept : (p : ℕ) → (within_block l h p || fr p) ≡ false → set_level c.2 c.1 c.2 r.lv p ≡ lv p
    kept p k = elim (Bool-cases (within_block c.2 c.1 p)) [
      | inl u ↦ cc (sym (ap (λ k. k || r.fr p) u) ∙ r.union p ∙ k)
      | inr o ↦ rw o (r.levels p o)
    ]
