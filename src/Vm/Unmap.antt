-- ===== src/Vm/Unmap.antt =====
-- `do_unmap`: the region that is given back stays cached.
use os_final_program.Base.{
  ℕ, zero, suc, ◌+◌, ◌≤◌, ◌<◌, ◌≡◌, refl, ap, ◌∙◌, ◌≢◌, inl, inr, true, false, some, List, [], ◌∷◌,
  ◌++◌, arith, ltb, leb, ◌==◌, if◌then◌else◌, lt→ltb, ==_iff, ==_refl, ==_ne, Bool-cases, length,
  contains, u32, sub32,
}
use os_final_program.Vm.{
  Vma, Mm, kernel_entry, write_vma, in_vma, walk_above, cache_found, find_vma_and_prev, find_vma,
  is_in_found, is_in_vma, unmap_found, do_unmap,
}
use os_final_program.Vm.Chain.{
  Chain, Sorted, last_of, relink, Chain-write, not_contains, Behind, nothing_past_end,
}

-- A cached region that holds the address is found at once.
cached_hit :
    (fuel a : ℕ) (mm : Mm)
    → mm.mmap_cache ≢ 0
    → in_vma (mm.vmas mm.mmap_cache) a ≡ true
    → (is_in_vma fuel mm a).0 ≡ some true
unfolding is_in_vma find_vma is_in_found
cached_hit fuel a mm nz i =
    let z : (mm.mmap_cache == 0) ≡ false = ==_ne mm.mmap_cache 0 nz in rw (z, i) (ground arith)

-- A new `vm_next` of a region moves no region.
same_place :
    (h : ℕ → Vma) (q n p a : ℕ)
    → in_vma (write_vma h q (record (h q) { vm_next = n }) p) a ≡ in_vma (h p) a
same_place h q n p a = elim (Bool-cases (q == p)) [
  | inl t ↦ rw (t, (==_iff q p).0 t)
  | inr t ↦ rw t
]

-- Behind regions that end at or below the address, the walk finds a region that ends above it.
walk_above-finds :
    (h : ℕ → Vma) (addr fuel p prev v : ℕ) (before after : List ℕ)
    → Chain h p (before ++ (v ∷ after))
    → length before < fuel
    → ((u : ℕ) → contains before u ≡ true → (h u).vm_end ≤ addr)
    → addr < (h v).vm_end
    → walk_above h addr fuel prev p ≡ some (v, last_of prev before)
unfolding walk_above
walk_above-finds h addr zero p prev v before after c l b a = absurd (omega arith)
walk_above-finds h addr (suc fuel) p prev v [] after c l b a =
    rw (c.0, ==_ne v 0 c.1, lt→ltb _ _ a) refl
walk_above-finds h addr (suc fuel) p prev v (x ∷ xs) after c l b a =
    let below : ltb addr (h x).vm_end ≡ false = ground (arith, b x (rw (==_refl x) refl)) in
    rw (c.0, ==_ne x 0 c.1, below)
      (walk_above-finds h addr fuel (h x).vm_next x v xs after c.2 (omega (arith, l))
        (λ u k. b u (ground arith)) a)

-- The space without its first region `p`, and the one without the region `p` behind `prev`; `p` is
-- cached.
abbrev without_first : Mm → ℕ → Mm
without_first mm p = record mm {
  mmap = (mm.vmas p).vm_next;
  mmap_cache = p;
  map_count = sub32 mm.map_count 1;
}

abbrev without_later : Mm → ℕ → ℕ → Mm
without_later mm p prev = record mm {
  mmap_cache = p;
  vmas = write_vma mm.vmas prev (record (mm.vmas prev) { vm_next = (mm.vmas p).vm_next });
  map_count = sub32 mm.map_count 1;
}

module _ (fuel addr len p prev : ℕ) (mm : Mm)
    (found : walk_above mm.vmas addr fuel 0 mm.mmap ≡ some (p, prev)) (not_null : p ≢ 0)
    (low : addr ≤ kernel_entry) (low_end : u32 (len + addr) ≤ kernel_entry)
    (starts : (mm.vmas p).vm_start < u32 (addr + len))
    (ends : u32 (addr + len) ≤ (mm.vmas p).vm_end) where
  do_unmap-unlinks :
      do_unmap fuel mm addr len
      ≡ some (0, if prev == 0 then without_first mm p else without_later mm p prev)
  unfolding do_unmap find_vma_and_prev cache_found unmap_found
  do_unmap-unlinks =
      let np : (p == 0) ≡ false = ==_ne p 0 not_null in
      let b1 : ltb kernel_entry addr ≡ false = ground arith in
      let b2 : ltb kernel_entry (u32 (len + addr)) ≡ false = ground arith in
      let b3 : leb (u32 (addr + len)) (mm.vmas p).vm_start ≡ false = ground arith in
      let b4 : leb (u32 (addr + len)) (mm.vmas p).vm_end ≡ true = ground arith in
      elim (Bool-cases (prev == 0)) [
        | inl t ↦ rw (b1, b2, found, np, b3, b4, t)
        | inr t ↦ rw (b1, b2, found, np, b3, b4, t)
      ]

-- Without the region `p` behind `last_of x xs`, the list leads past it.
unlinked_Chain :
    (h : ℕ → Vma) (m p x : ℕ) (xs after : List ℕ)
    → Chain h m (x ∷ xs ++ (p ∷ after))
    → Sorted h 0 (x ∷ xs ++ (p ∷ after))
    → Chain
        (write_vma h (last_of x xs) (record (h (last_of x xs)) { vm_next = (h p).vm_next }))
        m
        (x ∷ xs ++ after)
unlinked_Chain h m p x xs after c s =
    let q : ℕ = last_of x xs in
    let k : Behind h q (p ∷ after) = nothing_past_end h 0 m x xs (p ∷ after) c s in
    relink h 0 m x (h p).vm_next xs (p ∷ after) after c s (
      Chain-write h (h p).vm_next q _ after k.chain.2 (
        not_contains h (h p).vm_end q after k.sorted.2
          (omega (arith, k.not_empty, k.sorted.0, k.sorted.1))))

-- What `do_unmap` makes of a list of regions: `p` is taken out between `before` and `after`, counted off
-- and cached.
pub record Unmaps (mm : Mm) (before : List ℕ) (p : ℕ) (after : List ℕ) (mm' : Mm) : Type 0 where
  pub chain : Chain mm'.vmas mm'.mmap (before ++ after)
  pub count : mm'.map_count ≡ sub32 mm.map_count 1
  pub cached : mm'.mmap_cache ≡ p
  pub places : (a u : ℕ) → in_vma (mm'.vmas u) a ≡ in_vma (mm.vmas u) a

-- The regions are in order and do not overlap, those before `p` end at or below `addr` and are fewer than
-- the fuel, and `p` ends above `addr`. Where the range of `len` bytes ends inside `p`, `do_unmap`
-- takes `p` out of the list, moves no region, counts `p` off and returns 0; the cache then points
-- to `p`. So `is_in_vma` answers 1 for every address of `p`, as long as the block that was given
-- back holds what it held.
pub do_unmap-stale :
    (fuel fuel' addr len p : ℕ) (before after : List ℕ) (mm : Mm)
    → Chain mm.vmas mm.mmap (before ++ (p ∷ after))
    → Sorted mm.vmas 0 (before ++ (p ∷ after))
    → length before < fuel
    → ((u : ℕ) → contains before u ≡ true → (mm.vmas u).vm_end ≤ addr)
    → addr < (mm.vmas p).vm_end
    → addr ≤ kernel_entry
    → u32 (len + addr) ≤ kernel_entry
    → (mm.vmas p).vm_start < u32 (addr + len)
    → u32 (addr + len) ≤ (mm.vmas p).vm_end
    → (mm' : Mm) × (do_unmap fuel mm addr len ≡ some (0, mm'))
      × Unmaps mm before p after mm'
      × ((a : ℕ) → in_vma (mm.vmas p) a ≡ true → (is_in_vma fuel' mm' a).0 ≡ some true)
do_unmap-stale fuel fuel' addr len p [] after mm c s l b a ha hl hs he = (
  without_first mm p,
  do_unmap-unlinks fuel addr len p 0 mm
      (walk_above-finds mm.vmas addr fuel mm.mmap 0 p [] after c l b a) c.1 ha hl hs he,
  record { chain = c.2; count = refl; cached = refl; places = λ a u. refl },
  λ a i. cached_hit fuel' a (without_first mm p) c.1 i,
)
do_unmap-stale fuel fuel' addr len p (x ∷ xs) after mm c s l b a ha hl hs he =
    let q : ℕ = last_of x xs in
    let k : Behind mm.vmas q (p ∷ after) =
      nothing_past_end mm.vmas 0 mm.mmap x xs (p ∷ after) c s in
    let nq : (q == 0) ≡ false = ==_ne q 0 k.not_null in
    (
      without_later mm p q,
      do_unmap-unlinks fuel addr len p q mm
            (walk_above-finds mm.vmas addr fuel mm.mmap 0 p (x ∷ xs) after c l b a) k.chain.1 ha hl
            hs he
          ∙ ap (λ t. some (0, if t then without_first mm p else without_later mm p q)) nq,
      record {
        chain = unlinked_Chain mm.vmas mm.mmap p x xs after c s;
        count = refl;
        cached = refl;
        places = λ a u. same_place mm.vmas q (mm.vmas p).vm_next u a;
      },
      λ a i.
          cached_hit fuel' a (without_later mm p q) k.chain.1
            (same_place mm.vmas q (mm.vmas p).vm_next p a ∙ i),
    )
