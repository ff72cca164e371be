-- ===== src/Fat/Alloc/Allocates.antt =====
-- `fs_alloc`.
use os_final_program.Base.{
  ℕ, ◌+◌, ◌-◌, ◌^◌, ◌≤◌, ◌<◌, ◌≡◌, refl, sym, ap, subst, ◌∙◌, ◌≢◌, inl, inr, Bool, true, false,
  Option, none, some, List, arith, ltb, ◌==◌, if◌then◌else◌, ltb→lt, ==_ne, Bool-cases, length, u32,
}
use os_final_program.Buddy.{put_at}
use os_final_program.Fat.Disk.{Sectors}
use os_final_program.Fat.{FatInfo, FatCache, no_cluster, fs_modify_fat, fs_next_free}
use os_final_program.Fat.Entries.{Entry, FatWf, SameEntries}
use os_final_program.Fat.Search.{FirstFree, fs_next_free-FirstFree, fs_next_free_behind}
use os_final_program.Fat.Alloc.{
  free_count, nxt_free, FatState, advance_free, after_modify, alloc_at, alloc_modified, alloc_found,
  fs_alloc,
}
use os_final_program.Fat.Alloc.Taken.{
  end_mark, Table, ErasesOutside, Taken, modified, same_table, alloc_at-Good,
}

module _ (d : Sectors) (g : FatInfo) where
  module _ (small : g.total_data_clusters + 2 ≤ 2 ^ 28) (outside : ErasesOutside d g) where
    -- A cluster behind the last one is not allocated.
    alloc_at_behind :
        (s : FatState d g) (clus r : ℕ)
        → g.total_data_clusters + 2 ≤ clus
        → (alloc_at d g s clus).0 ≢ some r
    unfolding alloc_at after_modify advance_free
    alloc_at_behind (c, info) clus r l = go (fs_modify_fat d g c clus 0xffffffff)
      where
        go : (q : Bool × FatCache d g) → (after_modify d g clus info q).0 ≢ some r
        go (false, c') = λ e. cc
        go (true, c') =
            let none_left : ltb (g.total_data_clusters + 1) no_cluster ≡ true =
              ground (arith, small) in
            rw (fs_next_free_behind d g c' clus l, none_left) (λ e. cc)

    behind :
        (clus : ℕ) (info : List ℕ) (c : FatCache d g) (r : ℕ)
        → g.total_data_clusters + 2 ≤ clus
        → (alloc_found d g info (some clus, c)).0 ≢ some r
    unfolding alloc_found alloc_modified
    behind clus info c r l = go (fs_modify_fat d g c clus 0xffffffff)
      where
        go : (q : Bool × FatCache d g) → (alloc_modified d g clus info q).0 ≢ some r
        go (false, c') = λ e. cc
        go (true, c') = alloc_at_behind (c', info) clus r l

    -- An entry that is marked twice.
    remarked :
        (entries : ℕ → ℕ) (clus : ℕ) (info : List ℕ) (s : FatState d g)
        → Taken d g (put_at entries clus end_mark) clus info s
        → Taken d g entries clus info s
    remarked entries clus info s k = record {
      in_range = k.in_range;
      wf = k.wf;
      table = λ j a b. (
        (k.table j a b).0,
        subst (λ v. Entry d g s.0 j v) (once j (entries j)) (k.table j a b).1,
      );
      next_free =
          sym (
            ap (λ b. if b then end_mark else entries (u32 (nxt_free s.1 + 1)))
              (==_ne clus _ (λ e. k.next_other (sym e))))
          ∙ k.next_free;
      next_other = k.next_other;
    }
      where
        once :
            (j v : ℕ)
            → (if clus == j then end_mark else if clus == j then end_mark else v)
              ≡ (if clus == j then end_mark else v)
        once j v = ground arith

    twice :
        (entries : ℕ → ℕ) (info : List ℕ)
        → length info ≡ 512
        → (clus : ℕ) (c : FatCache d g) → FatWf d g c
        → Table d g c entries
        → 2 ≤ clus
        → clus < g.total_data_clusters + 2
        → entries clus ≡ 0
        → (r : ℕ) → (alloc_found d g info (some clus, c)).0 ≡ some r
        → (entries r ≡ 0) × Taken d g entries r info (alloc_found d g info (some clus, c)).1
    unfolding alloc_found alloc_modified
    twice entries info long clus c wf t l b z r =
        go (fs_modify_fat d g c clus 0xffffffff) (modified d g entries c clus wf t l b)
      where
        go :
            (q : Bool × FatCache d g)
            → (q.0 ≡ true → FatWf d g q.1 × Table d g q.1 (put_at entries clus end_mark))
            → (alloc_modified d g clus info q).0 ≡ some r
            → (entries r ≡ 0) × Taken d g entries r info (alloc_modified d g clus info q).1
        go (false, c') f = λ ok. cc
        go (true, c') f = λ ok.
            let p =
              alloc_at-Good d g small outside (put_at entries clus end_mark) info long clus l b c'
                (f refl).0 (f refl).1 r ok in
            (
              ap entries p.0 ∙ z,
              subst (λ k. Taken d g entries k info (alloc_at d g (c', info) clus).1) (sym p.0)
                  (remarked entries clus info _ p.1),
            )

    -- For a disk of at most 2^28 clusters, tables of which the entries are in the first table, erased sectors
    -- that are none of the table's, and FSInfo, a sector, whose next free cluster is one of entry 0
    -- unless it is behind the free count: an allocation that succeeds returns a cluster of the disk
    -- whose entry was 0 and now marks the end of a chain, all other entries are as before, and the
    -- next free cluster in FSInfo is another one of entry 0.
    pub fs_alloc-Taken :
        (entries : ℕ → ℕ) (c : FatCache d g) (info : List ℕ) (r : ℕ)
        → FatWf d g c
        → Table d g c entries
        → length info ≡ 512
        → (u32 (nxt_free info + 1) ≤ u32 (free_count info + 1)
            → (2 ≤ u32 (nxt_free info + 1)) × (entries (u32 (nxt_free info + 1)) ≡ 0))
        → (fs_alloc d g (c, info)).0 ≡ some r
        → (entries r ≡ 0) × Taken d g entries r info (fs_alloc d g (c, info)).1
    unfolding fs_alloc
    fs_alloc-Taken entries c info r wf t long hint =
        elim (Bool-cases (ltb (u32 (free_count info + 1)) (u32 (nxt_free info + 1)))) [
          | inl z ↦ rw z (
              searched (fs_next_free d g c 2)
                (λ next ok. fs_next_free-FirstFree d g entries c 2 next wf t ok))
          | inr z ↦ rw z (hinted (u32 (nxt_free info + 1)) (hint (ground (arith, z))))
        ]
      where
        hinted :
            (clus : ℕ)
            → (2 ≤ clus) × (entries clus ≡ 0)
            → (alloc_at d g (c, info) clus).0 ≡ some r
            → (entries r ≡ 0) × Taken d g entries r info (alloc_at d g (c, info) clus).1
        hinted clus (l, z) ok = elim (Bool-cases (ltb clus (g.total_data_clusters + 2))) [
          | inl b ↦
              let p =
                alloc_at-Good d g small outside entries info long clus l (ltb→lt _ _ b) c wf t r
                  ok in
              (
                ap entries p.0 ∙ z,
                subst (λ k. Taken d g entries k info (alloc_at d g (c, info) clus).1) (sym p.0) p.1,
              )
          | inr b ↦ absurd (alloc_at_behind (c, info) clus r (ground (arith, b)) ok)
        ]

        searched :
            (q : Option ℕ × FatCache d g)
            → ((next : ℕ)
                → q.0 ≡ some next
                → FirstFree d g entries 2 (g.total_data_clusters + 2 - 2) next
                  × SameEntries d g c q.1)
            → (alloc_found d g info q).0 ≡ some r
            → (entries r ≡ 0) × Taken d g entries r info (alloc_found d g info q).1
        searched (none, c') f = λ ok. cc
        searched (some clus, c') f = first (f clus refl).0
          where
            first :
                FirstFree d g entries 2 (g.total_data_clusters + 2 - 2) clus
                → (alloc_found d g info (some clus, c')).0 ≡ some r
                → (entries r ≡ 0)
                  × Taken d g entries r info (alloc_found d g info (some clus, c')).1
            first x =
                unfold FirstFree in
                elim x [
                  | inl (l, b, z, k) ↦
                      twice entries info long clus c' (f clus refl).1.wf
                        (same_table d g entries c c' t (f clus refl).1) l (omega (arith, b)) z r
                  | inr (e, k) ↦ λ ok. absurd (behind clus info c' r (omega (arith, e, small)) ok)
                ]
