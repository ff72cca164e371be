-- ===== src/Slab/Fit.antt =====
-- `get_slab` of kernel/mm/myslab.c.
use os_final_program.Base.{
  ℕ, zero, suc, ◌+◌, ◌≤◌, ◌<◌, ◌≡◌, refl, sym, subst, ◌∙◌, ◌⊎◌, inl, inr, true, false, ◌&&◌, none,
  List, [], ◌∷◌, arith, ltb, leb, ◌==◌, ltb→lt, ==_ne, Bool-cases, length, get_or,
}
use os_final_program.Slab.{
  Slab, cache_sizes, objsize, fit_from, get_slab, phy_kmalloc, kmalloc, kernel_address,
}

-- The smallest of the sizes that are large enough and below `bf_num`, or none.
record Best (os : List ℕ) (size i bf_num d r : ℕ) : Type 0 where
  listed : d < length os
  index : r ≡ i + d
  enough : size ≤ get_or os d 0
  below : get_or os d 0 < bf_num
  least : (e : ℕ) → e < length os → size ≤ get_or os e 0 → get_or os d 0 ≤ get_or os e 0

fit_from-Best :
    (os : List ℕ) (size i bf_num bf_index : ℕ)
    → ((fit_from os size i bf_num bf_index ≡ bf_index)
        × ((e : ℕ) → e < length os → size ≤ get_or os e 0 → bf_num ≤ get_or os e 0))
      ⊎ ((d : ℕ) × Best os size i bf_num d (fit_from os size i bf_num bf_index))
unfolding fit_from
fit_from-Best [] size i bf_num bf_index = inl (refl, λ e h. absurd (omega (arith, h)))
fit_from-Best (o ∷ os) size i bf_num bf_index = elim (Bool-cases (leb size o && ltb o bf_num)) [
  | inl z ↦ rw z (better z (fit_from-Best os size (i + 1) o i))
  | inr z ↦ rw z (worse z (fit_from-Best os size (i + 1) bf_num bf_index))
]
  where
    cons_all :
        (b : ℕ)
        → (size ≤ o → b ≤ o)
        → ((e : ℕ) → e < length os → size ≤ get_or os e 0 → b ≤ get_or os e 0)
        → (e : ℕ) → e < length (o ∷ os)
        → size ≤ get_or (o ∷ os) e 0
        → b ≤ get_or (o ∷ os) e 0
    cons_all b h t zero l s = h s
    cons_all b h t (suc e) l s = t e (omega (arith, l)) s

    better :
        (leb size o && ltb o bf_num) ≡ true
        → ((fit_from os size (i + 1) o i ≡ i)
            × ((e : ℕ) → e < length os → size ≤ get_or os e 0 → o ≤ get_or os e 0))
          ⊎ ((d : ℕ) × Best os size (i + 1) o d (fit_from os size (i + 1) o i))
        → ((fit_from os size (i + 1) o i ≡ bf_index)
            × ((e : ℕ)
                → e < length (o ∷ os)
                → size ≤ get_or (o ∷ os) e 0
                → bf_num ≤ get_or (o ∷ os) e 0))
          ⊎ ((d : ℕ) × Best (o ∷ os) size i bf_num d (fit_from os size (i + 1) o i))
    better z (inl (e, a)) = inr (
      0,
      record {
        listed = omega arith;
        index = e ∙ omega arith;
        enough = ground (arith, z);
        below = ground (arith, z);
        least = cons_all o (λ s. omega arith) a;
      },
    )
    better z (inr (d, b)) = inr (
      suc d,
      record {
        listed = omega (arith, b.listed);
        index = omega (arith, b.index);
        enough = b.enough;
        below = ground (arith, z, b.below);
        least = cons_all _ (λ s. omega (arith, b.below)) b.least;
      },
    )

    worse :
        (leb size o && ltb o bf_num) ≡ false
        → ((fit_from os size (i + 1) bf_num bf_index ≡ bf_index)
            × ((e : ℕ) → e < length os → size ≤ get_or os e 0 → bf_num ≤ get_or os e 0))
          ⊎ ((d : ℕ) × Best os size (i + 1) bf_num d (fit_from os size (i + 1) bf_num bf_index))
        → ((fit_from os size (i + 1) bf_num bf_index ≡ bf_index)
            × ((e : ℕ)
                → e < length (o ∷ os)
                → size ≤ get_or (o ∷ os) e 0
                → bf_num ≤ get_or (o ∷ os) e 0))
          ⊎ ((d : ℕ) × Best (o ∷ os) size i bf_num d (fit_from os size (i + 1) bf_num bf_index))
    worse z (inl (e, a)) = inl (e, cons_all bf_num (λ s. ground (arith, z, s)) a)
    worse z (inr (d, b)) = inr (
      suc d,
      record {
        listed = omega (arith, b.listed);
        index = omega (arith, b.index);
        enough = b.enough;
        below = b.below;
        least = cons_all _ (λ s. ground (arith, z, s, b.below)) b.least;
      },
    )

le_chain : {a b c : ℕ} → a ≤ b → b ≤ c → a ≤ c
le_chain h g = omega (arith, h, g)

too_large : (size : ℕ) → (size ≤ 1536 → 2048 ≤ 1536) → 1536 < size
too_large size f = elim (Bool-cases (ltb 1536 size)) [
  | inl z ↦ ltb→lt _ _ z
  | inr z ↦ absurd (omega (arith, f (ground (arith, z))))
]

-- All sizes below 2048 are 1536 at most.
sizes_below : (d : ℕ) → d < 12 → objsize d < 2048 → objsize d ≤ 1536
sizes_below zero l h = omega arith
sizes_below (suc zero) l h = omega arith
sizes_below (suc (suc zero)) l h = omega arith
sizes_below (suc (suc (suc zero))) l h = omega arith
sizes_below (suc (suc (suc (suc zero)))) l h = omega arith
sizes_below (suc (suc (suc (suc (suc zero))))) l h = omega arith
sizes_below (suc (suc (suc (suc (suc (suc zero)))))) l h = omega arith
sizes_below (suc (suc (suc (suc (suc (suc (suc zero))))))) l h = omega arith
sizes_below (suc (suc (suc (suc (suc (suc (suc (suc zero)))))))) l h = omega arith
sizes_below (suc (suc (suc (suc (suc (suc (suc (suc (suc zero))))))))) l h = omega arith
sizes_below (suc (suc (suc (suc (suc (suc (suc (suc (suc (suc zero)))))))))) l h = omega arith
sizes_below (suc (suc (suc (suc (suc (suc (suc (suc (suc (suc (suc zero))))))))))) l h =
    absurd (omega (arith, h))
sizes_below (suc (suc (suc (suc (suc (suc (suc (suc (suc (suc (suc (suc d)))))))))))) l h =
    absurd (omega (arith, l))

-- For up to 1536 bytes `get_slab` chooses a cache whose objects are large enough, and none of the caches
-- with objects large enough has smaller ones. For more it chooses none.
pub get_slab-best_fit :
    (size : ℕ)
    → ((size ≤ 1536)
        × (get_slab size < 12)
        × (size ≤ objsize (get_slab size))
        × ((c : ℕ) → c < 12 → size ≤ objsize c → objsize (get_slab size) ≤ objsize c))
      ⊎ ((1536 < size) × (get_slab size ≡ 12))
unfolding get_slab
get_slab-best_fit size =
    go (fit_from cache_sizes size 0 2048 12) (fit_from-Best cache_sizes size 0 2048 12)
  where
    go :
        (r : ℕ)
        → ((r ≡ 12)
            × ((e : ℕ)
                → e < length cache_sizes
                → size ≤ get_or cache_sizes e 0
                → 2048 ≤ get_or cache_sizes e 0))
          ⊎ ((d : ℕ) × Best cache_sizes size 0 2048 d r)
        → ((size ≤ 1536)
            × (r < 12)
            × (size ≤ objsize r)
            × ((c : ℕ) → c < 12 → size ≤ objsize c → objsize r ≤ objsize c))
          ⊎ ((1536 < size) × (r ≡ 12))
    go r (inl (e, a)) = inr (too_large size (a 10 (omega arith)), e)
    go r (inr (d, b)) =
        let k : d ≡ r = omega arith ∙ sym b.index in
        subst
          (λ r.
            ((size ≤ 1536)
              × (r < 12)
              × (size ≤ objsize r)
              × ((c : ℕ) → c < 12 → size ≤ objsize c → objsize r ≤ objsize c))
            ⊎ ((1536 < size) × (r ≡ 12)))
          k (inl (le_chain b.enough (sizes_below d b.listed b.below), b.listed, b.enough, b.least))

-- `kmalloc` of 1537 to 2048 bytes stops the kernel: no cache is chosen, and the buddy system is not asked.
pub kmalloc-stops : (s : Slab) (size : ℕ) → 1536 < size → size ≤ 2048 → kmalloc s size ≡ none
unfolding kmalloc phy_kmalloc kernel_address
kmalloc-stops s size h l = elim (get_slab-best_fit size) [
  | inl x ↦ absurd (omega (arith, h, x.0))
  | inr x ↦
      let a : (size == 0) ≡ false = ==_ne size 0 (λ e. omega (arith, h, e)) in
      let b : ltb 2048 size ≡ false = no_more l in rw (a, b, x.1) refl
]
  where
    no_more : size ≤ 2048 → ltb 2048 size ≡ false
    no_more l = ground (arith, l)
