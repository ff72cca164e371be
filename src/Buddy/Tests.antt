-- ===== src/Buddy/Tests.antt =====
-- A buddy system of sixteen pages.
use os_final_program.Base.{
  ℕ, ◌*◌, ◌≤◌, ◌<◌, ◌≡◌, refl, ◌⊎◌, true, false, ◌||◌, none, some, [], ◌∷◌, arith, ltb,
}
use os_final_program.Buddy.{Buddy, reserved, init_buddy, free_block, alloc_block}
use os_final_program.Buddy.Tiling.{within_block}
use os_final_program.Buddy.Rep.{Rep}
use os_final_program.Buddy.Free.{free_block-Frees}
use os_final_program.Buddy.Alloc.{Allocates, alloc_block-Allocates}
use os_final_program.Buddy.Init.{reserved-Rep, init_buddy-Rep}
use os_final_program.Buddy.Halves.{first_page}

-- All pages have become one block.
one_block : ((init_buddy 16).free_head 4 ≡ 0 ∷ []) × ((init_buddy 16).free_head 0 ≡ [])
unfolding init_buddy
one_block = (refl, refl)

-- An allocation of a page splits it.
page_0 :
    ((alloc_block (init_buddy 16) 0).0 ≡ some 0)
    × ((alloc_block (init_buddy 16) 0).1.free_head 3 ≡ 8 ∷ [])
unfolding init_buddy alloc_block
page_0 = (refl, refl)

free_block-Frees_example :
    (lv' : ℕ → ℕ) × Rep
      (free_block reserved 5 0)
      lv'
      (λ p. within_block 0 5 p || false)
      (1 * 16)
      (1 * 16)
      (1 * 16)
    × ((p : ℕ) → (within_block 0 5 p || false) ≡ false → lv' p ≡ 0)
free_block-Frees_example =
    free_block-Frees reserved (λ p. 0) (λ p. false) 1 0 5 (reserved-Rep 1) refl refl (first_page 5)
      (omega arith)

alloc_block-Allocates_example :
    ((alloc_block (init_buddy 16) 2 ≡ (none, init_buddy 16))
      × ((p : ℕ) → ltb p 16 ≡ true → (init_buddy-Rep 1).0 p < 2))
    ⊎ ((h : ℕ) × (b' : Buddy) × (alloc_block (init_buddy 16) 2 ≡ (some h, b'))
        × Allocates (init_buddy 16) (init_buddy-Rep 1).0 (λ p. ltb p 16) 1 2 h b'
        × ((p : ℕ) × (ltb p 16 ≡ true) × (2 ≤ (init_buddy-Rep 1).0 p)))
alloc_block-Allocates_example =
    alloc_block-Allocates (init_buddy 16) (init_buddy-Rep 1).0 (λ p. ltb p 16) 1 2
      (init_buddy-Rep 1).1 (omega arith)

init_buddy-Rep_example : (lv : ℕ → ℕ) × Rep (init_buddy 16) lv (λ p. ltb p 16) 16 16 16
init_buddy-Rep_example = init_buddy-Rep 1
