-- ===== src/Buddy/Alloc.antt =====
-- `__alloc_pages`.
use os_final_program.Base.{
  ℕ, zero, suc, ◌+◌, ◌-◌, ◌*◌, ◌^◌, ◌≤◌, ◌<◌, ◌≡◌, refl, sym, ap, ap₂, subst, ◌∙◌, ◌⊎◌, inl, inr,
  Bool, true, false, not, ◌&&◌, ◌||◌, none, some, List, [], ◌∷◌, arith, leb, ◌==◌, ==_iff, ==_refl,
  ==_ne, Bool-cases, contains,
}
use os_final_program.Buddy.{Buddy, add_free, split_down, take_block, alloc_block, find_order}
use os_final_program.Buddy.Tiling.{within_block, set_level, set_free}
use os_final_program.Buddy.Rep.{Pending, Rep}
use mathlib.Core.Path.{fun_ext}
use os_final_program.Buddy.Halves.{down, up, base, up-base, up_mono}
use os_final_program.Buddy.Take.{taken, taken-Pending, taken_union, taken_levels, free_in_block}
use os_final_program.Buddy.Split.{
  mate_ne, split_lv, split_fr, split-Pending, split_union, split_outside,
}

-- What the loop keeps while it splits the block of level `l` at `h` for one of level `k`.
record Splits (lv0 : ℕ → ℕ) (fr0 : ℕ → Bool) (n k h l : ℕ) (b : Buddy) : Type 0 where
  lv : ℕ → ℕ
  fr : ℕ → Bool
  pending : Pending b lv fr n l h (n * 16)
  union : (p : ℕ) → (within_block l h p || fr p) ≡ fr0 p
  levels : (p : ℕ) → fr0 p ≡ false → lv p ≡ lv0 p
  bplevel : b.bplevel h ≡ k
  flag : (b.flag h == 0) ≡ false

split_down-Splits :
    (lv0 : ℕ → ℕ) (fr0 : ℕ → Bool) (n k h r : ℕ) (b : Buddy)
    → Splits lv0 fr0 n k h (k + r) b
    → Splits lv0 fr0 n k h k (split_down r b h k)
unfolding split_down
split_down-Splits lv0 fr0 n k h zero b s = subst (λ l. Splits lv0 fr0 n k h l b) (omega arith) s
split_down-Splits lv0 fr0 n k h (suc r) b s =
    split_down-Splits lv0 fr0 n k h r _
      (round (subst (λ l. Splits lv0 fr0 n k h l b) (omega arith) s))
  where
    round :
        Splits lv0 fr0 n k h (suc (k + r)) b
        → Splits lv0 fr0 n k h (k + r) (add_free b (h + 2 ^ (k + r)) (k + r))
    round s = record {
      lv = split_lv b s.lv s.fr n (k + r) h s.pending;
      fr = split_fr b s.lv s.fr n (k + r) h s.pending;
      pending = split-Pending b s.lv s.fr n (k + r) h s.pending;
      union = λ p. split_union b s.lv s.fr n (k + r) h s.pending p ∙ s.union p;
      levels =
          λ p f. split_outside b s.lv s.fr n (k + r) h s.pending p (no_part p f) ∙ s.levels p f;
      bplevel =
          unfold add_free in rw (==_ne _ h (mate_ne b s.lv s.fr n (k + r) h s.pending)) s.bplevel;
      flag = unfold add_free in rw (==_ne _ h (mate_ne b s.lv s.fr n (k + r) h s.pending)) s.flag;
    }
      where
        no_part : (p : ℕ) → fr0 p ≡ false → within_block (suc (k + r)) h p ≡ false
        no_part p f = ground (arith, s.union p, f)

at_level :
    (free : ℕ → List ℕ) (i j h : ℕ)
    → i ≡ j
    → contains (free i) h ≡ true
    → contains (free j) h ≡ true
at_level free i j h e c = subst (λ k. contains (free k) h ≡ true) e c

-- The search finds a block on the first list that is not empty.
find_order-finds :
    (r : ℕ) (free : ℕ → List ℕ) (k : ℕ)
    → ((find_order r free k ≡ none) × ((i : ℕ) → k ≤ i → i < k + r → free i ≡ []))
      ⊎ ((d h : ℕ) × (find_order r free k ≡ some (h, k + d)) × (contains (free (k + d)) h ≡ true))
unfolding find_order
find_order-finds zero free k = inl (refl, λ i a e. absurd (omega (arith, a, e)))
find_order-finds (suc r) free k = go (free k) refl (find_order-finds r free (k + 1))
  where
    go :
        (q : List ℕ)
        → free k ≡ q
        → ((find_order r free (k + 1) ≡ none) × ((i : ℕ) → k + 1 ≤ i → i < k + 1 + r → free i ≡ []))
          ⊎ ((d h : ℕ) × (find_order r free (k + 1) ≡ some (h, k + 1 + d))
              × (contains (free (k + 1 + d)) h ≡ true))
        → ((find_order (suc r) free k ≡ none) × ((i : ℕ) → k ≤ i → i < k + suc r → free i ≡ []))
          ⊎ ((d h : ℕ) × (find_order (suc r) free k ≡ some (h, k + d))
              × (contains (free (k + d)) h ≡ true))
    go (h ∷ hs) e s = inr (
      0,
      h,
      rw (find_order, e) (ap (λ i. some (h, i)) (omega arith)),
      at_level free k (k + 0) h (omega arith) (rw e (ground (arith, ==_refl h))),
    )
    go [] e (inl (z, f)) = inl (
      rw (find_order, e) z,
      λ i a o. elim (Bool-cases (k == i)) [
        | inl x ↦ subst (λ j. free j ≡ []) ((==_iff k i).0 x) e
        | inr x ↦ f i (ground (arith, a, x)) (omega (arith, o))
      ],
    )
    go [] e (inr (d, h, z, c)) = inr (
      suc d,
      h,
      rw (find_order, e) (z ∙ ap (λ i. some (h, i)) (omega arith)),
      at_level free (k + 1 + d) (k + suc d) h (omega arith) c,
    )

-- What an allocation of level `k` leaves: the page it returns, and the tiling.
pub record Allocates (b : Buddy) (lv : ℕ → ℕ) (fr : ℕ → Bool) (n k h : ℕ) (b' : Buddy)
    : Type 0 where
  pub was_free : (p : ℕ) → up k p ≡ up k h → fr p ≡ true
  pub aligned : h ≡ base k h
  pub lv' : ℕ → ℕ
  pub rep : Rep b' lv' (λ p. fr p && not (within_block k h p)) (n * 16) (n * 16) (n * 16)
  pub level : lv' h ≡ k
  pub kept : (p : ℕ) → fr p ≡ false → lv' p ≡ lv p

split-Allocates :
    (b : Buddy) (lv : ℕ → ℕ) (fr : ℕ → Bool) (n k h : ℕ) (b' : Buddy)
    → ((p : ℕ) → up k p ≡ up k h → fr p ≡ true)
    → Splits lv fr n k h k b'
    → Allocates b lv fr n k h b'
split-Allocates b lv fr n k h b' u s = record {
  was_free = u;
  aligned = s.pending.first;
  lv' = s.lv;
  rep =
      subst (λ g. Rep b' s.lv g (n * 16) (n * 16) (n * 16)) left
        (record {
          tiling = s.pending.rep.tiling;
          lists = s.pending.rep.lists;
          levels = λ t i e x y. elim (Bool-cases (t == h)) [
            | inl z ↦ let q : t ≡ h = (==_iff t h).0 z in rw q (s.bplevel ∙ sym s.pending.level)
            | inr z ↦ s.pending.rep.levels t i e (λ q. cc (sym ((==_iff t h).1 q) ∙ z)) x
          ];
          flags = λ t i e x y. elim (Bool-cases (t == h)) [
            | inl z ↦ let q : t ≡ h = (==_iff t h).0 z in rw q (s.flag ∙ sym s.pending.busy)
            | inr z ↦ s.pending.rep.flags t i e (λ q. cc (sym ((==_iff t h).1 q) ∙ z)) x
          ];
        });
  level = s.pending.level;
  kept = s.levels;
}
  where
    left : s.fr ≡ (λ p. fr p && not (within_block k h p))
    left = fun_ext λ p. elim (Bool-cases (within_block k h p)) [
      | inl z ↦ rw z (
          s.pending.rep.tiling.fr_same h p (rw s.pending.level ((==_iff _ _).0 z))
          ∙ s.pending.busy
          ∙ sym (and_false (fr p)))
      | inr z ↦ rw z (ap (λ v. v || s.fr p) (sym z) ∙ s.union p ∙ sym (and_true (fr p)))
    ]
      where
        and_false : (a : Bool) → (a && false) ≡ false
        and_false a = ground arith

        and_true : (a : Bool) → (a && true) ≡ a
        and_true a = ground arith

-- What is on a free list.
listed :
    (b : Buddy) (lv : ℕ → ℕ) (fr : ℕ → Bool) (n : ℕ)
    → Rep b lv fr (n * 16) (n * 16) (n * 16)
    → (i t : ℕ) → contains (b.free_head i) t ≡ true
    → (fr t ≡ true) × (lv t ≡ i) × (t ≡ base i t)
listed b lv fr n w i t c = all (fr t) (sym (w.lists i t) ∙ c)
  where
    all :
        (f : Bool)
        → (f && ((lv t == i) && (t == base i t))) ≡ true
        → (f ≡ true) × (lv t ≡ i) × (t ≡ base i t)
    all f e =
        (ground (arith, e), (==_iff _ _).0 (ground (arith, e)), (==_iff _ _).0 (ground (arith, e)))

-- The block around a free page is on the list of its level.
listed_block :
    (b : Buddy) (lv : ℕ → ℕ) (fr : ℕ → Bool) (n : ℕ)
    → Rep b lv fr (n * 16) (n * 16) (n * 16)
    → (p : ℕ) → fr p ≡ true
    → contains (b.free_head (lv p)) (base (lv p) p) ≡ true
listed_block b lv fr n w p e =
    let u : up (lv p) (base (lv p) p) ≡ up (lv p) p = up-base (lv p) p in
    let l : lv (base (lv p) p) ≡ lv p = w.tiling.same p _ u in
    let f : fr (base (lv p) p) ≡ true = w.tiling.fr_same p _ u ∙ e in
    let a : base (lv p) p ≡ base (lv p) (base (lv p) p) = ap (down (lv p)) (sym u) in
    w.lists (lv p) _ ∙ ap₂ ◌&&◌ f (ap₂ ◌&&◌ ((==_iff _ _).1 l) ((==_iff _ _).1 a))

taken-Splits :
    (b : Buddy) (lv : ℕ → ℕ) (fr : ℕ → Bool) (n c k h : ℕ)
    → Rep b lv fr (n * 16) (n * 16) (n * 16)
    → lv h ≡ c
    → fr h ≡ true
    → h ≡ base c h
    → Splits lv fr n k h c (taken b h c k)
taken-Splits b lv fr n c k h w l f a = record {
  lv = set_level c h c lv;
  fr = set_free c h (λ p. false) fr;
  pending = taken-Pending b lv fr n c k h w l f a;
  union = taken_union b lv fr n c k h w l f a;
  levels = taken_levels b lv fr n c k h w l f a;
  bplevel = rw (==_refl h) refl;
  flag = rw (==_refl h) refl;
}

-- From pages that stand for a tiling, an allocation of a level up to 4 fails exactly if no free block has
-- that level or a higher one, and then changes nothing. Else it returns the first page of a block
-- of the level, all of whose pages were free; exactly these are free no more, the pages stand for
-- a tiling again, in which the block has the level, and the blocks in use keep theirs.
pub alloc_block-Allocates :
    (b : Buddy) (lv : ℕ → ℕ) (fr : ℕ → Bool) (n k : ℕ)
    → Rep b lv fr (n * 16) (n * 16) (n * 16)
    → k ≤ 4
    → ((alloc_block b k ≡ (none, b)) × ((p : ℕ) → fr p ≡ true → lv p < k))
      ⊎ ((h : ℕ) × (b' : Buddy) × (alloc_block b k ≡ (some h, b'))
          × Allocates b lv fr n k h b'
          × ((p : ℕ) × (fr p ≡ true) × (k ≤ lv p)))
unfolding alloc_block
alloc_block-Allocates b lv fr n k w s = elim (find_order-finds (5 - k) b.free_head k) [
  | inl (z, f) ↦ inl (
    ap (take_block b k) z ∙ (unfold take_block in refl),
    λ p e. elim (Bool-cases (leb k (lv p))) [
      | inr o ↦ ground (arith, o)
      | inl o ↦ cc (
          sym (listed_block b lv fr n w p e)
          ∙ ap (λ q. contains q (base (lv p) p))
              (f (lv p) (ground (arith, o)) (omega (arith, w.tiling.small p, s))))
    ],
  )
  | inr (d, h, z, c) ↦
      let m : (fr h ≡ true) × (lv h ≡ k + d) × (h ≡ base (k + d) h) =
        listed b lv fr n w (k + d) h c in
      inr (
        h,
        split_down ((k + d) - k) (taken b h (k + d) k) h k,
        ap (take_block b k) z ∙ (unfold take_block in refl),
        split-Allocates b lv fr n k h _
            (λ p e.
              free_in_block b lv fr n (k + d) k h w m.1 m.0 m.2 p
                (up_mono k (k + d) p h (omega arith) e))
            (split_down-Splits lv fr n k h ((k + d) - k) (taken b h (k + d) k) (
              subst (λ l. Splits lv fr n k h l (taken b h (k + d) k)) (omega arith)
                (taken-Splits b lv fr n (k + d) k h w m.1 m.0 m.2))),
        (h, m.0, omega (arith, m.1)),
      )
]
