-- ===== src/Paging/Tests.antt =====
-- Tables of which one is there.
use os_final_program.Base.{ℕ, ◌+◌, ◌*◌, ◌≡◌, refl, sym, ◌⊎◌, arith}
use os_final_program.Paging.{Tables, do_mapping}
use os_final_program.Paging.Walk.{NotShared, walk}
use os_final_program.Paging.OneMapping.{Wf}
use os_final_program.Paging.Mapping.{MapsAll, Fails, do_mapping-MapsAll}

-- A `kmalloc` whose pages come one after the other.
abbrev pages : ℕ → ℕ
pages n = (n + 1) * 4096

abbrev no_tables : Tables
no_tables = record { pgd = λ i. 0; tables = λ p j. 0; calls = 0 }

no_tables-Wf : Wf pages no_tables
unfolding NotShared
no_tables-Wf = record { not_shared = λ i j u e. absurd (u refl); unused = λ n k l u e. u (sym e) }

-- Two pages at the end of one region and the start of the next.
two_pages :
    (walk (do_mapping pages no_tables 0x3ff000 2 0x10000 15).1 0x3ff123 ≡ 0x1000f)
    × (walk (do_mapping pages no_tables 0x3ff000 2 0x10000 15).1 0x400000 ≡ 0x1100f)
unfolding do_mapping walk
two_pages = (refl, refl)

do_mapping-MapsAll_example :
    ((t' : Tables) × (do_mapping pages no_tables 0x3ff000 2 0x10000 15 ≡ (0, t'))
      × MapsAll pages no_tables 0x3ff000 2 0x10000 15 t')
    ⊎ ((t' : Tables) × (do_mapping pages no_tables 0x3ff000 2 0x10000 15 ≡ (1, t'))
        × Fails pages no_tables 0x3ff000 2 t')
do_mapping-MapsAll_example =
    do_mapping-MapsAll pages (λ n. omega arith) (λ n m u e. omega (arith, e)) 2 no_tables 0x3ff000
      0x10000 15 no_tables-Wf (omega arith) (omega arith) (omega arith)
