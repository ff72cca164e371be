-- ===== src/Vm/Insert.antt =====
-- `insert_vma_struct`: where the new region goes, and what is lost when it goes first.
use os_final_program.Base.{
  ℕ, zero, suc, ◌+◌, ◌≤◌, ◌<◌, ◌≡◌, refl, sym, ap, subst, ◌∙◌, ◌≢◌, ◌⊎◌, inl, inr, true, false,
  some, List, [], ◌∷◌, ◌++◌, arith, ltb, ◌==◌, ltb→lt, ==_refl, ==_ne, Bool-cases, length, contains,
  u32,
}
use os_final_program.Vm.{Vma, Mm, write_vma, find_vma_prepare, link_vma, insert_vma_struct}
use os_final_program.Vm.Chain.{
  Chain, Sorted, last_of, relink, Chain-write, not_contains, Behind, Sorted-write, contains-after,
  contains-last, nothing_past_end,
}

-- The regions that start at or below the address, and the others.
record Split (h : ℕ → Vma) (addr prev : ℕ) (vs before after : List ℕ) : Type 0 where
  parts : vs ≡ before ++ after
  below : (before ≡ []) ⊎ ((h (last_of prev before)).vm_start ≤ addr)
  above : (v : ℕ) (rest : List ℕ) → after ≡ v ∷ rest → addr < (h v).vm_start

module _ (h : ℕ → Vma) (addr : ℕ) where
  same_head : (v w : ℕ) (vs ws : List ℕ) → ◌≡◌ {A = List ℕ} (v ∷ vs) (w ∷ ws) → v ≡ w
  same_head v w vs ws e = cc

  Split-cons :
      (prev v : ℕ) (vs b a : List ℕ)
      → (h v).vm_start ≤ addr
      → Split h addr v vs b a
      → Split h addr prev (v ∷ vs) (v ∷ b) a
  Split-cons prev v vs b a l s = record {
    parts = ap (λ t. v ∷ t) s.parts;
    below = inr (last s.below);
    above = s.above;
  }
    where
      last : (b ≡ []) ⊎ ((h (last_of v b)).vm_start ≤ addr) → (h (last_of v b)).vm_start ≤ addr
      last (inl e) = rw e l
      last (inr k) = k

  prepare-Split :
      (fuel p prev : ℕ) (vs : List ℕ)
      → Chain h p vs
      → length vs < fuel
      → (before : List ℕ) × (after : List ℕ) × (find_vma_prepare h addr fuel prev p
          ≡ some (last_of prev before))
        × Split h addr prev vs before after
  unfolding find_vma_prepare
  prepare-Split zero p prev vs c l = absurd (omega arith)
  prepare-Split (suc fuel) p prev [] c l =
      ([], [], rw c, record { parts = refl; below = inl refl; above = λ v rest e. absurd (cc) })
  prepare-Split (suc fuel) p prev (v ∷ vs) c l =
      let nv : (v == 0) ≡ false = ground arith in
      elim (Bool-cases (ltb addr (h v).vm_start)) [
        | inl t ↦ (
          [],
          v ∷ vs,
          rw (c.0, nv, t),
          record {
            parts = refl;
            below = inl refl;
            above = λ w rest e. rw (← same_head v w vs rest e) (ltb→lt _ _ t);
          },
        )
        | inr t ↦
            let (b, a, e, s) = prepare-Split fuel (h v).vm_next v vs c.2 (omega arith) in
            (v ∷ b, a, rw (c.0, nv, t) e, Split-cons prev v vs b a (ground arith) s)
      ]

-- A region that starts below the first one of the list becomes the whole list: every other region is
-- lost, though it stays counted.
pub insert_vma_struct-front :
    (fuel area v : ℕ) (mm : Mm) (vs : List ℕ)
    → Chain mm.vmas mm.mmap (v ∷ vs)
    → 0 < fuel
    → area ≢ 0
    → (mm.vmas area).vm_start < (mm.vmas v).vm_start
    → (mm' : Mm) × (insert_vma_struct fuel mm area ≡ some mm')
      × Chain mm'.vmas mm'.mmap (area ∷ [])
      × (mm'.map_count ≡ u32 (mm.map_count + 1))
unfolding insert_vma_struct find_vma_prepare link_vma
insert_vma_struct-front zero area v mm vs c f nz l = absurd (omega arith)
insert_vma_struct-front (suc fuel) area v mm vs c f nz l =
    let h = mm.vmas in
    let nv : (v == 0) ≡ false = ground arith in
    let t : ltb (h area).vm_start (h v).vm_start ≡ true = ground arith in
    (
      record mm {
        mmap = area;
        vmas = write_vma h area (record (h area) { vm_next = 0 });
        map_count = u32 (mm.map_count + 1);
      },
      rw (c.0, nv, t),
      (refl, nz, rw (==_refl area) refl),
      refl,
    )

-- What an insertion of `area` between two parts of a list makes of the address space.
pub record Inserts (mm : Mm) (area : ℕ) (before after : List ℕ) (mm' : Mm) : Type 0 where
  pub chain : Chain mm'.vmas mm'.mmap (before ++ (area ∷ after))
  pub count : mm'.map_count ≡ u32 (mm.map_count + 1)
  pub behind : (mm.vmas (last_of 0 before)).vm_start ≤ (mm.vmas area).vm_start
  pub in_front :
      (v : ℕ) (rest : List ℕ) → after ≡ v ∷ rest → (mm.vmas area).vm_start < (mm.vmas v).vm_start

module _ (mm : Mm) (area x : ℕ) (xs after : List ℕ) (c : Chain mm.vmas mm.mmap (x ∷ xs ++ after))
    (s : Sorted mm.vmas 0 (x ∷ xs ++ after)) (nz : area ≢ 0)
    (fresh : contains (x ∷ xs ++ after) area ≡ false) where
  l : ℕ
  l = last_of x xs

  linked : ℕ → Vma
  linked = write_vma mm.vmas area (record (mm.vmas area) { vm_next = (mm.vmas l).vm_next })

  behind : Behind mm.vmas l after
  unfolding l
  behind = nothing_past_end mm.vmas 0 mm.mmap x xs after c s

  l_ne_area : (l == area) ≡ false
  unfolding l
  l_ne_area =
      ==_ne (last_of x xs) area
        (λ e. cc (sym fresh ∙ ap (contains (x ∷ xs ++ after)) (sym e) ∙ contains-last x xs after))

  area_ne_l : (area == l) ≡ false
  area_ne_l = ground (arith, l_ne_area)

  tail-Chain : Chain (write_vma linked l (record (linked l) { vm_next = area })) area (area ∷ after)
  unfolding linked
  tail-Chain = (
    refl,
    nz,
    rw (l_ne_area, ==_refl area)
        (Chain-write linked _ l _ after
          (Chain-write mm.vmas _ area _ after behind.chain
            (contains-after area (x ∷ xs) after fresh))
          (not_contains mm.vmas (mm.vmas l).vm_end l after behind.sorted behind.not_empty)),
  )

  link-Chain :
      Chain
        (write_vma linked l (record (linked l) { vm_next = area }))
        mm.mmap
        (x ∷ xs ++ (area ∷ after))
  unfolding l linked
  link-Chain =
      relink linked 0 mm.mmap x area xs after (area ∷ after)
        (Chain-write mm.vmas mm.mmap area _ (x ∷ xs ++ after) c fresh)
        (Sorted-write mm.vmas 0 area _ (x ∷ xs ++ after) s fresh) tail-Chain

not_front :
    (h : ℕ → Vma) (addr v : ℕ) (vs after : List ℕ)
    → (h v).vm_start ≤ addr
    → ◌≡◌ {A = List ℕ} (v ∷ vs) after
    → ((w : ℕ) (rest : List ℕ) → after ≡ w ∷ rest → addr < (h w).vm_start)
    → ⊥
not_front h addr v vs after k e above = absurd (omega (arith, above v vs (sym e)))

-- A new region, not in the list, that starts at or above the first region of a list in order goes
-- behind all regions that start at or below it and in front of those that start above; no region
-- is lost, and the count goes up by one. The fuel has to be above the number of regions.
pub insert_vma_struct-Inserts :
    (fuel area v : ℕ) (mm : Mm) (vs : List ℕ)
    → Chain mm.vmas mm.mmap (v ∷ vs)
    → Sorted mm.vmas 0 (v ∷ vs)
    → length (v ∷ vs) < fuel
    → area ≢ 0
    → contains (v ∷ vs) area ≡ false
    → (mm.vmas v).vm_start ≤ (mm.vmas area).vm_start
    → (before : List ℕ) × (after : List ℕ) × (mm' : Mm) × (insert_vma_struct fuel mm area
        ≡ some mm')
      × (v ∷ vs ≡ before ++ after)
      × Inserts mm area before after mm'
unfolding insert_vma_struct
insert_vma_struct-Inserts fuel area v mm vs c s f nz fresh k =
    let (b, a, e, p) = prepare-Split mm.vmas (mm.vmas area).vm_start fuel mm.mmap 0 (v ∷ vs) c f in
    go b a e p
  where
    go :
        (b a : List ℕ)
        → find_vma_prepare mm.vmas (mm.vmas area).vm_start fuel 0 mm.mmap ≡ some (last_of 0 b)
        → Split mm.vmas (mm.vmas area).vm_start 0 (v ∷ vs) b a
        → (before : List ℕ) × (after : List ℕ) × (mm' : Mm) × (link_vma mm area
              (find_vma_prepare mm.vmas (mm.vmas area).vm_start fuel 0 mm.mmap)
            ≡ some mm')
          × (v ∷ vs ≡ before ++ after)
          × Inserts mm area before after mm'
    go [] a e p = absurd (not_front mm.vmas (mm.vmas area).vm_start v vs a k p.parts p.above)
    go (x ∷ xs) a e p =
        let c' : Chain mm.vmas mm.mmap (x ∷ xs ++ a) = subst (Chain mm.vmas mm.mmap) p.parts c in
        let s' : Sorted mm.vmas 0 (x ∷ xs ++ a) = subst (Sorted mm.vmas 0) p.parts s in
        let f' : contains (x ∷ xs ++ a) area ≡ false =
          subst (λ t. contains t area ≡ false) p.parts fresh in
        let nl : (last_of x xs == 0) ≡ false =
          ==_ne (last_of x xs) 0 (nothing_past_end mm.vmas 0 mm.mmap x xs a c' s').not_null in
        (
          x ∷ xs,
          a,
          record mm {
            vmas =
                write_vma (linked mm area x xs a c' s' nz f') (last_of x xs)
                  (record (linked mm area x xs a c' s' nz f' (last_of x xs)) { vm_next = area });
            map_count = u32 (mm.map_count + 1);
          },
          unfold link_vma linked l in rw (e, nl),
          p.parts,
          record {
            chain = unfold l in link-Chain mm area x xs a c' s' nz f';
            count = refl;
            behind = lower p.below;
            in_front = p.above;
          },
        )
      where
        lower :
            (◌≡◌ {A = List ℕ} (x ∷ xs) [])
              ⊎ ((mm.vmas (last_of x xs)).vm_start ≤ (mm.vmas area).vm_start)
            → (mm.vmas (last_of x xs)).vm_start ≤ (mm.vmas area).vm_start
        lower (inl e) = cc
        lower (inr h) = h
