-- ===== src/Vm/Lookup.antt =====
-- `find_vma` and `is_in_vma`: which addresses are mapped.
use os_final_program.Base.{
  ℕ, zero, suc, ◌<◌, ◌≡◌, refl, ap, ◌⊎◌, inl, inr, Bool, true, false, not, ◌&&◌, some, List, [],
  ◌∷◌, arith, ltb, ◌==◌, if◌then◌else◌, Bool-cases, length, contains,
}
use os_final_program.Vm.{
  Vma, Mm, in_vma, walk_above, cache_found, find_vma_and_prev, first_of_pair, find_vma, is_in_found,
  is_in_vma,
}
use os_final_program.Vm.Chain.{Chain, Sorted, holds, holds_below, holds-contains}

-- The list of an address space, in order, with a cached region of the list or none.
pub record IsValid (mm : Mm) (vs : List ℕ) : Type 0 where
  pub chain : Chain mm.vmas mm.mmap vs
  pub sorted : Sorted mm.vmas 0 vs
  pub cache : (mm.mmap_cache ≡ 0) ⊎ (contains vs mm.mmap_cache ≡ true)
  pub count : mm.map_count ≡ length vs

abbrev mapped : (ℕ → Vma) → ℕ → ℕ → Bool
mapped h addr q = if q == 0 then false else if ltb addr (h q).vm_start then false else true

module _ (h : ℕ → Vma) (addr : ℕ) where
  walk_above-holds :
      (fuel lo p prev : ℕ) (vs : List ℕ)
      → Chain h p vs
      → Sorted h lo vs
      → length vs < fuel
      → (q : ℕ) × (r : ℕ) × (walk_above h addr fuel prev p ≡ some (q, r))
        × (mapped h addr q ≡ holds h vs addr)
  unfolding walk_above
  walk_above-holds zero lo p prev vs c s l = absurd (omega arith)
  walk_above-holds (suc fuel) lo p prev [] c s l = (0, prev, rw c, refl)
  walk_above-holds (suc fuel) lo p prev (v ∷ vs) c s l =
      let nv : (v == 0) ≡ false = ground arith in
      elim (Bool-cases (ltb addr (h v).vm_end)) [
        | inl t ↦ (v, prev, rw (c.0, nv, t), ground (arith, holds_below h (h v).vm_end vs addr s.2))
        | inr t ↦
            let (q, r, e, m) =
              walk_above-holds fuel (h v).vm_end (h v).vm_next v vs c.2 s.2 (omega arith) in
            (q, r, rw (c.0, nv, t) e, rw t m)
      ]

-- With the regions in order, none empty, not overlapping and counted by `map_count`, the cached region
-- null or one of the list, and the fuel above their number, the answer of `is_in_vma` is whether
-- some region of the list holds the address.
pub is_in_vma-holds :
    (fuel : ℕ) (mm : Mm) (vs : List ℕ) (addr : ℕ)
    → IsValid mm vs
    → length vs < fuel
    → (is_in_vma fuel mm addr).0 ≡ some (holds mm.vmas vs addr)
unfolding is_in_vma find_vma find_vma_and_prev
is_in_vma-holds fuel mm vs addr v l = elim (Bool-cases (not (c == 0) && in_vma (mm.vmas c) addr)) [
  | inl t ↦ rw t (unfold is_in_found in hit t v.cache)
  | inr t ↦ rw t (walked (walk_above-holds mm.vmas addr fuel 0 mm.mmap 0 vs v.chain v.sorted l))
]
  where
    c : ℕ
    c = mm.mmap_cache

    hit :
        (not (c == 0) && in_vma (mm.vmas c) addr) ≡ true
        → (c ≡ 0) ⊎ (contains vs c ≡ true)
        → some (mapped mm.vmas addr c) ≡ some (holds mm.vmas vs addr)
    hit t (inl z) = absurd (ground arith)
    hit t (inr z) = ground (arith, holds-contains mm.vmas vs c addr z)

    walked :
        ((q : ℕ) × (r : ℕ) × (walk_above mm.vmas addr fuel 0 mm.mmap ≡ some (q, r))
          × (mapped mm.vmas addr q ≡ holds mm.vmas vs addr))
        → is_in_found mm addr
            (first_of_pair (cache_found mm (walk_above mm.vmas addr fuel 0 mm.mmap)).0)
          ≡ some (holds mm.vmas vs addr)
    walked (q, r, e, m) = unfold is_in_found first_of_pair cache_found in rw e (ap some m)
