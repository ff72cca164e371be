-- ===== src/VfsCache/Tests.antt =====
-- A page cache of two pages, and the theorems at it.
use os_final_program.Base.{ℕ, ◌*◌, ◌%◌, ◌≡◌, refl, some, List, [], ◌∷◌, arith}
use os_final_program.VfsCache.{
  Cache, Page, Pages, cache_init, pcache_look_up, pcache_add, push_front,
}
use os_final_program.VfsCache.Lists.{distinct}
use os_final_program.VfsCache.Coherent.{Coherent}
use os_final_program.Pc.Unlink.{Without}
use os_final_program.VfsCache.Add.{
  page_key, Adds, pcache_look_up-finds, pcache_add-Adds, entered-Coherent,
}

-- Block `10 * t` of file 1 is page `t`; odd pages are dirty.
abbrev page : ℕ → Page
page t = record { p_state = t % 2; p_location = 10 * t; p_mapping = 1 }

abbrev no_pages : Cache
no_pages = record { c_size = 0; c_capacity = 2; c_tablesize = 8; lru = []; hashtable = λ i. [] }

init_lem : cache_init 2 8 ≡ no_pages
unfolding cache_init
init_lem = refl

no_pages-Coherent : Coherent (page_key page no_pages) no_pages
unfolding distinct
no_pages-Coherent = record {
  no_twice = refl;
  counted = refl;
  fits = omega arith;
  is_word = omega arith;
  hashed = λ i t. refl;
}

abbrev one_page : Cache
one_page = push_front no_pages (page_key page no_pages 3) 3

one_page-Coherent : Coherent (page_key page no_pages) one_page
one_page-Coherent = entered-Coherent page no_pages 3 refl (omega arith) no_pages-Coherent

abbrev two_pages : Cache
two_pages = push_front one_page (page_key page no_pages 4) 4

two_pages-Coherent : Coherent (page_key page two_pages) two_pages
unfolding push_front
two_pages-Coherent = entered-Coherent page one_page 4 refl (omega arith) one_page-Coherent

pcache_look_up-finds_example :
    (u : ℕ) × ((pcache_look_up page two_pages 30 1).0 ≡ some u)
    × ((page u).p_location ≡ 30)
    × ((page u).p_mapping ≡ 1)
    × ((rest : List ℕ) × ((pcache_look_up page two_pages 30 1).1.lru ≡ u ∷ rest)
        × Without u two_pages.lru rest)
    × Coherent (page_key page two_pages) (pcache_look_up page two_pages 30 1).1
unfolding push_front
pcache_look_up-finds_example =
    pcache_look_up-finds page two_pages 30 1 3 two_pages-Coherent refl refl refl

-- The pages that have been written back.
abbrev log : ℕ → List ℕ → List ℕ
log t written = t ∷ written

abbrev full_cache : Pages (List ℕ)
full_cache = record { cache = two_pages; listed = λ i. []; store = [] }

pcache_add-Adds_example :
    (s' : Pages (List ℕ)) × (pcache_add log page full_cache 5 ≡ some s')
    × Adds log page full_cache 5 s'
unfolding push_front
pcache_add-Adds_example =
    pcache_add-Adds log page full_cache 5 two_pages-Coherent (omega arith) refl
