-- ===== src/Bootmm/Tests.antt =====
-- Runs of the boot allocator, and its theorems at them.
use os_final_program.Base.{
  ℕ, ◌+◌, ◌≤◌, ◌<◌, ◌≡◌, refl, ◌≢◌, ◌⊎◌, ◌||◌, some, List, [], ◌∷◌, arith, ltb, ◌==◌, if◌then◌else◌,
}
use os_final_program.Bootmm.Info.{
  MmInfo, insert_mminfo, split_mminfo, hangs, twoway_merge, no_merge,
}
use os_final_program.Bootmm.{
  Bootmm, page_used, upper_align, unit_align, find_pages, set_maps, bootmm_alloc_pages, count_pages,
}
use os_final_program.Bootmm.Insert.{Regions, covers, within, insert_mminfo-covers}
use os_final_program.Bootmm.Find.{Takes, find_pages-Takes}
use os_final_program.Bootmm.Alloc.{Allocates, bootmm_alloc_pages-Allocates}

abbrev region : ℕ → ℕ → ℕ → MmInfo
region s e t = record { start = s; end = e; type = t }

abbrev gap : List MmInfo
gap = region 0 9 5 ∷ region 20 29 5 ∷ []

gap-Regions : Regions gap
gap-Regions = omega arith

gap_filled : insert_mminfo gap 10 19 5 ≡ (twoway_merge, region 0 29 5 ∷ [])
unfolding insert_mminfo
gap_filled = refl

insert_mminfo-covers_example :
    covers (insert_mminfo gap 10 19 5).1 5 15 ≡ (covers gap 5 15 || within 10 19 5 5 15)
unfolding insert_mminfo
insert_mminfo-covers_example =
    insert_mminfo-covers gap 10 19 5 gap-Regions (omega arith) (omega arith) (λ e. cc) (λ e. cc) 5
      15

-- A second region of another usage goes behind the first, below which it starts.
unordered :
    insert_mminfo (region 100 199 5 ∷ []) 10 19 5
    ≡ (no_merge, region 100 199 5 ∷ region 10 19 5 ∷ [])
unfolding insert_mminfo
unordered = refl

first_hangs : split_mminfo (region 0 65535 5 ∷ []) 0 4096 ≡ hangs
unfolding split_mminfo
first_hangs = refl

-- Pages 0, 2 and 3 are used.
abbrev holed : Bootmm
holed = record {
  phymm = 65536;
  max_pfn = 16;
  s_map = λ p. if p == 1 then 0 else if ltb p 4 then page_used else 0;
  last_alloc_end = 0;
  info = [];
}

-- Two pages are wanted, and the second of those taken is in use.
takes_used : (find_pages holed 2 1 16 1).0 ≡ some 4096
unfolding find_pages count_pages upper_align
takes_used = refl

find_pages-Takes_example :
    ((p : ℕ) × Takes holed 2 (upper_align 1 (unit_align 1)) 16 p (find_pages holed 2 1 16 1))
    ⊎ ((find_pages holed 2 1 16 1 ≡ (some 0, holed))
        × ((p : ℕ)
            → upper_align 1 (unit_align 1) ≤ p
            → p < 16
            → ((q : ℕ) → upper_align 1 (unit_align 1) ≤ q → q < p → holed.s_map q ≡ page_used)
            → holed.s_map p ≢ page_used
            → 16 < p + 2))
find_pages-Takes_example = find_pages-Takes holed 2 1 16 1

bootmm_alloc_pages-Allocates_example : Allocates holed 2 (bootmm_alloc_pages holed 8192 5 4096)
bootmm_alloc_pages-Allocates_example = bootmm_alloc_pages-Allocates holed 8192 5 4096

-- Page 2 is given back, and is recorded so.
abbrev given : Bootmm
given = record holed { info = region 4096 16383 5 ∷ [] }

abbrev given_back : Bootmm
given_back = record given {
  info = region 4096 8191 5 ∷ region 12288 16383 5 ∷ [];
  s_map = set_maps given.s_map 33554432 1 0;
}

page_2_still_used : given_back.s_map 2 ≡ page_used
unfolding set_maps
page_2_still_used = refl

abbrev front : Bootmm
front = record given { info = region 8192 16383 5 ∷ [] }

abbrev front_back : Bootmm
front_back = record given {
  info = region 12288 16383 5 ∷ [];
  s_map = set_maps given.s_map 33554432 1 0;
}
