-- ===== src/Vm/Tests.antt =====
-- Runs over small address spaces, and the theorems at them.
use os_final_program.Base.{
  ℕ, zero, suc, ◌≤◌, ◌≡◌, refl, inl, true, some, List, [], ◌∷◌, ◌++◌, arith, contains,
}
use os_final_program.Vm.{Vma, Mm, is_in_vma, insert_vma_struct, do_unmap, get_unmapped_area, in_vma}
use os_final_program.Vm.Chain.{Chain, holds}
use os_final_program.Vm.Lookup.{IsValid, is_in_vma-holds}
use os_final_program.Vm.Insert.{Inserts, insert_vma_struct-Inserts, insert_vma_struct-front}
use os_final_program.Vm.Unmap.{Unmaps, do_unmap-stale}

abbrev vma : ℕ → ℕ → ℕ → Vma
vma s e n = record { vm_start = s; vm_end = e; vm_next = n }

-- Regions 1 and 2 are in the list, 3 and 4 are not.
abbrev regions : ℕ → Vma
regions zero = vma 0 0 0
regions (suc zero) = vma 4096 8192 2
regions (suc (suc zero)) = vma 16384 20480 0
regions (suc (suc (suc zero))) = vma 8192 12288 0
regions (suc (suc (suc (suc p)))) = vma 0 4096 0

abbrev space : Mm
space = record { mmap = 1; mmap_cache = 0; map_count = 2; vmas = regions }

space-IsValid : IsValid space (1 ∷ 2 ∷ [])
space-IsValid = record {
  chain = (refl, omega arith, (refl, omega arith, refl));
  sorted = omega arith;
  cache = inl refl;
  count = refl;
}

is_in_vma-holds_example : (is_in_vma 3 space 5000).0 ≡ some (holds regions (1 ∷ 2 ∷ []) 5000)
is_in_vma-holds_example = is_in_vma-holds 3 space (1 ∷ 2 ∷ []) 5000 space-IsValid (omega arith)

insert_vma_struct-Inserts_example :
    (before : List ℕ) × (after : List ℕ) × (mm' : Mm) × (insert_vma_struct 3 space 3 ≡ some mm')
    × (1 ∷ 2 ∷ [] ≡ before ++ after)
    × Inserts space 3 before after mm'
insert_vma_struct-Inserts_example =
    insert_vma_struct-Inserts 3 3 1 space (2 ∷ []) space-IsValid.chain space-IsValid.sorted
      (omega arith) (omega arith) refl (omega arith)

insert_vma_struct-front_example :
    (mm' : Mm) × (insert_vma_struct 3 space 4 ≡ some mm')
    × Chain mm'.vmas mm'.mmap (4 ∷ [])
    × (mm'.map_count ≡ 3)
insert_vma_struct-front_example =
    insert_vma_struct-front 3 4 1 space (2 ∷ []) space-IsValid.chain (omega arith) (omega arith)
      (omega arith)

ends_below : (u : ℕ) → contains (1 ∷ []) u ≡ true → (regions u).vm_end ≤ 16384
ends_below zero k = omega arith
ends_below (suc zero) k = omega arith
ends_below (suc (suc u)) k = absurd (ground arith)

do_unmap-stale_example :
    (mm' : Mm) × (do_unmap 3 space 16384 4096 ≡ some (0, mm'))
    × Unmaps space (1 ∷ []) 2 [] mm'
    × ((a : ℕ) → in_vma (regions 2) a ≡ true → (is_in_vma 3 mm' a).0 ≡ some true)
do_unmap-stale_example =
    do_unmap-stale 3 3 16384 4096 2 (1 ∷ []) [] space space-IsValid.chain space-IsValid.sorted
      (omega arith) ends_below (omega arith) (omega arith) (omega arith) (omega arith) (omega arith)

first_gap : (get_unmapped_area 3 space 4096 4096).0 ≡ some 8192
unfolding get_unmapped_area
first_gap = refl
