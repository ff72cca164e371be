-- ===== src/Fat/Alloc/Taken.antt =====
-- What `fs_alloc` promises, and its part from the mark of the new cluster on.
use os_final_program.Base.{
  ℕ, ◌+◌, ◌-◌, ◌^◌, ◌≤◌, ◌<◌, ◌≡◌, refl, sym, ap, subst, ◌∙◌, ◌≢◌, ◌⊎◌, inl, inr, Bool, true, false,
  Option, none, some, List, arith, ltb, ◌==◌, ==_iff, ==_refl, ==_ne, Bool-cases, length, u32,
  sub32,
}
use os_final_program.Buddy.{put_at}
use os_final_program.Bytes.{set_u32}
use os_final_program.Bytes.LittleEndian.{get_u32-set_u32}
use os_final_program.Fat.Disk.{Sectors, InTable}
use os_final_program.Fat.{FatInfo, FatCache, fs_modify_fat, fs_next_free, fs_dataclus2sec}
use os_final_program.Fat.Modify.{Modifies, fs_modify_fat-Modifies}
use os_final_program.Fat.Entries.{some_inj, Entry, InFat, FatWf, SameEntries}
use os_final_program.Fat.Search.{FirstFree, fs_next_free-FirstFree}
use os_final_program.Fat.Alloc.{
  nxt_free, erase, FatState, erased, advance_free, after_modify, alloc_at,
}
use os_final_program.Fat.Alloc.Erase.{erase-others, same_table-SameEntries}

abbrev pub end_mark : ℕ
end_mark = 0x0fffffff

module _ (d : Sectors) (g : FatInfo) where
  -- The entries of all clusters.
  abbrev pub Table : FatCache d g → (ℕ → ℕ) → Type 0
  Table c entries =
      (k : ℕ) → 2 ≤ k → k < g.total_data_clusters + 2 → InFat d g k × Entry d g c k (entries k)

  -- The sectors that `fs_alloc` erases are none of the table's.
  abbrev pub ErasesOutside : Type 0
  ErasesOutside =
      (k : ℕ)
      → 2 ≤ k
      → k < g.total_data_clusters + 2
      → (fs_dataclus2sec g k + g.sectors_per_cluster ≤ 2 ^ 32)
        × ((fs_dataclus2sec g k + g.sectors_per_cluster ≤ g.reserved_sectors + g.base_addr)
            ⊎ (g.reserved_sectors + g.base_addr + g.num_of_sectors_per_fat ≤ fs_dataclus2sec g k))

  -- The cluster is the end of a chain, all other entries are as before, and the next cluster to be tried is
  -- a free one.
  pub record Taken (entries : ℕ → ℕ) (clus : ℕ) (info : List ℕ) (s : FatState d g) : Type 0 where
    pub in_range : (2 ≤ clus) × (clus < g.total_data_clusters + 2)
    pub wf : FatWf d g s.0
    pub table : Table s.0 (put_at entries clus end_mark)
    pub next_free : entries (u32 (nxt_free s.1 + 1)) ≡ 0
    pub next_other : u32 (nxt_free s.1 + 1) ≢ clus

  pub modified :
      (entries : ℕ → ℕ) (c : FatCache d g) (clus : ℕ)
      → FatWf d g c
      → Table c entries
      → 2 ≤ clus
      → clus < g.total_data_clusters + 2
      → (fs_modify_fat d g c clus 0xffffffff).0 ≡ true
      → FatWf d g (fs_modify_fat d g c clus 0xffffffff).1
        × Table (fs_modify_fat d g c clus 0xffffffff).1 (put_at entries clus end_mark)
  modified entries c clus wf t l h ok =
      let i : InFat d g clus = (t clus l h).0 in
      let m : Modifies d g c clus 0xffffffff (fs_modify_fat d g c clus 0xffffffff).1 =
        fs_modify_fat-Modifies d g c clus 0xffffffff (entries clus) wf i (t clus l h).1 ok in
      (
        m.wf,
        λ k a b. (
          (t k a b).0,
          elim (Bool-cases (clus == k)) [
            | inl z ↦ rw z (
                subst (λ x. Entry d g (fs_modify_fat d g c clus 0xffffffff).1 x end_mark)
                  ((==_iff clus k).0 z) m.here)
            | inr z ↦ rw z (
                m.others k (entries k) (t k a b).0 (λ e. cc (sym z ∙ (==_iff clus k).1 (sym e)))
                  (t k a b).1)
          ],
        ),
      )

  pub same_table :
      (entries : ℕ → ℕ) (c c' : FatCache d g)
      → Table c entries
      → SameEntries d g c c'
      → Table c' entries
  same_table entries c c' t s k a b = ((t k a b).0, s.keeps k (entries k) (t k a b).0 (t k a b).1)

  module _ (small : g.total_data_clusters + 2 ≤ 2 ^ 28) (outside : ErasesOutside) where
    -- The next free cluster is known.
    erased-Taken :
        (entries : ℕ → ℕ) (c : FatCache d g) (info : List ℕ) (clus next : ℕ) (s' : Sectors.St d)
        → FatWf d g c
        → Table c (put_at entries clus end_mark)
        → length info ≡ 512
        → 2 ≤ clus
        → clus < g.total_data_clusters + 2
        → clus ≤ next
        → next < g.total_data_clusters + 2
        → put_at entries clus end_mark next ≡ 0
        → (erase d g.sectors_per_cluster c.disk (fs_dataclus2sec g clus)).1 ≡ s'
        → Taken entries clus info (record c { disk = s' }, set_u32 info 492 (sub32 next 1))
    erased-Taken entries c info clus next s' wf t long l h a b free e = record {
      in_range = (l, h);
      wf = same.wf;
      table = same_table (put_at entries clus end_mark) c (record c { disk = s' }) t same;
      next_free = ap entries hint ∙ sym (unchanged free) ∙ free;
      next_other = λ z. other (sym hint ∙ z);
    }
      where
        same : SameEntries d g c (record c { disk = s' })
        same =
            same_table-SameEntries d g c s'
              (λ p q i.
                ap (λ s. Sectors.read d s p q) (sym e)
                ∙ erase-others d g.sectors_per_cluster (fs_dataclus2sec g clus) p c.disk q
                    (outside clus l h).0 (away p i (outside clus l h).1))
              wf
          where
            away :
                (p : ℕ)
                → InTable d (g.reserved_sectors + g.base_addr) g.num_of_sectors_per_fat p
                → (fs_dataclus2sec g clus + g.sectors_per_cluster
                    ≤ g.reserved_sectors + g.base_addr)
                  ⊎ (g.reserved_sectors + g.base_addr + g.num_of_sectors_per_fat
                      ≤ fs_dataclus2sec g clus)
                → (p < fs_dataclus2sec g clus)
                  ⊎ (fs_dataclus2sec g clus + g.sectors_per_cluster ≤ p)
            away p i (inl x) = unfold InTable in inr (omega (arith, x, i.0))
            away p i (inr x) = unfold InTable in inl (omega (arith, x, i.1))

        stored : nxt_free (set_u32 info 492 (sub32 next 1)) ≡ sub32 next 1
        stored = (get_u32-set_u32 info 492 (sub32 next 1) (omega (arith, long)) (omega arith)).0

        back : u32 (sub32 next 1 + 1) ≡ next
        back = omega (arith, a, l, b, small)

        hint : u32 (nxt_free (set_u32 info 492 (sub32 next 1)) + 1) ≡ next
        hint = ap (λ x. u32 (x + 1)) stored ∙ back

        other : next ≢ clus
        other z = absurd (marked (sym (ap (put_at entries clus end_mark) z) ∙ free))
          where
            marked : put_at entries clus end_mark clus ≢ 0
            marked = rw (==_refl clus) (λ q. omega (arith, q))

        unchanged :
            put_at entries clus end_mark next ≡ 0 → put_at entries clus end_mark next ≡ entries next
        unchanged z = rw (==_ne clus next (λ q. other (sym q))) refl

    -- What the parts of `fs_alloc` do from a table on whose entries are `entries`.
    abbrev pub Good : (ℕ → ℕ) → ℕ → List ℕ → Option ℕ × FatState d g → Type 0
    Good entries clus info q = (r : ℕ) → q.0 ≡ some r → (r ≡ clus) × Taken entries clus info q.1

    module _ (entries : ℕ → ℕ) (info : List ℕ) (long : length info ≡ 512) (clus : ℕ) (l : 2 ≤ clus)
        (h : clus < g.total_data_clusters + 2) where
      advance_free-Good :
          (c : FatCache d g) (q : Option ℕ × FatCache d g)
          → Table c (put_at entries clus end_mark)
          → ((next : ℕ)
              → q.0 ≡ some next
              → FirstFree d g
                  (put_at entries clus end_mark)
                  clus
                  (g.total_data_clusters + 2 - clus)
                  next
                × SameEntries d g c q.1)
          → Good entries clus info (advance_free d g clus info q)
      unfolding advance_free erased
      advance_free-Good c (none, c') t f = λ r ok. cc
      advance_free-Good c (some next, c') t f =
          elim (Bool-cases (ltb (g.total_data_clusters + 1) next)) [
            | inl z ↦ rw z (λ r ok. cc)
            | inr z ↦ rw z (found (f next refl).0 (ground (arith, z)))
          ]
        where
          erasing :
              (w : Bool × Sectors.St d)
              → (erase d g.sectors_per_cluster c'.disk (fs_dataclus2sec g clus)).1 ≡ w.1
              → clus ≤ next
              → next < g.total_data_clusters + 2
              → put_at entries clus end_mark next ≡ 0
              → Good entries clus info (erased d g clus c' (set_u32 info 492 (sub32 next 1)) w)
          erasing (true, s') e a b z =
              unfold erased in
              (λ r ok. (
                sym (some_inj ok),
                erased-Taken entries c' info clus next s' (f next refl).1.wf
                    (same_table (put_at entries clus end_mark) c c' t (f next refl).1) long l h a b
                    z e,
              ))
          erasing (false, s') e a b z = unfold erased in (λ r ok. cc)

          found :
              FirstFree d g
                (put_at entries clus end_mark)
                clus
                (g.total_data_clusters + 2 - clus)
                next
              → next < g.total_data_clusters + 2
              → Good entries clus info (
                  erased d g clus c'
                    (set_u32 info 492 (sub32 next 1))
                    (erase d g.sectors_per_cluster c'.disk (fs_dataclus2sec g clus)))
          found x b =
              unfold FirstFree in
              elim x [
                | inl (a, m, z, k) ↦ erasing _ refl a b z
                | inr (e, k) ↦ absurd (omega (arith, e, b, small))
              ]

      pub alloc_at-Good :
          (c : FatCache d g)
          → FatWf d g c
          → Table c entries
          → Good entries clus info (alloc_at d g (c, info) clus)
      unfolding alloc_at after_modify
      alloc_at-Good c wf t =
          go (fs_modify_fat d g c clus 0xffffffff) (modified entries c clus wf t l h)
        where
          go :
              (q : Bool × FatCache d g)
              → (q.0 ≡ true → FatWf d g q.1 × Table q.1 (put_at entries clus end_mark))
              → Good entries clus info (after_modify d g clus info q)
          go (false, c') f = λ r ok. cc
          go (true, c') f = advance_free-Good c' (fs_next_free d g c' clus) (f refl).1 (λ next ok.
              fs_next_free-FirstFree d g (put_at entries clus end_mark) c' clus next (f refl).0
                (λ k a b. (f refl).1 k (omega (arith, a, l)) b) ok)
