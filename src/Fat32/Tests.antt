-- ===== src/Fat32/Tests.antt =====
-- A volume whose table has the chain of the clusters 3 and 5.
use os_final_program.Base.{ℕ, ◌<◌, ◌≡◌, refl, sym, subst, some, List, [], ◌∷◌, arith, replicate}
use os_final_program.Bytes.{get_u32, set_u32}
use os_final_program.Fat32.{
  Volume, end_of_chain, read_fat, count_blocks, root_pages, lookup_pages, fat32_bmap,
}
use os_final_program.Fat32.Chain.{fat_word, Chain, ends, goes_on, pages_of_Chain}

abbrev volume : Volume
volume = record { fat_base = 32; data_sec = 100; blksize = 4096 }

-- Every sector is the same.
abbrev table : ℕ → List ℕ
table a = set_u32 (set_u32 (replicate 512 0) 12 5) 20 end_of_chain

read_3 : read_fat volume table 3 ≡ 5
unfolding read_fat get_u32 set_u32
read_3 = refl

read_5 : read_fat volume table 5 ≡ end_of_chain
unfolding read_fat get_u32 set_u32
read_5 = refl

word_3 : fat_word volume table 3 ≡ 5
unfolding fat_word set_u32
word_3 = refl

word_5 : fat_word volume table 5 ≡ end_of_chain
unfolding fat_word set_u32
word_5 = refl

table-Chain : Chain volume table 3 (3 ∷ 5 ∷ [])
table-Chain =
    goes_on (λ e. omega (arith, e))
      (subst (λ c. Chain volume table c (5 ∷ [])) (sym word_3)
        (goes_on (λ e. omega (arith, e)) (subst (λ c. Chain volume table c []) (sym word_5) ends)))

pages_of_Chain_example :
    (count_blocks volume table 3 3 0 ≡ some 2)
    × (root_pages volume table 2 3 ≡ 3 ∷ 5 ∷ [])
    × ((k : ℕ) → k < 2 → fat32_bmap (lookup_pages volume table 2 3) k ≡ 3)
pages_of_Chain_example =
    pages_of_Chain volume table (omega arith) 3 (3 ∷ 5 ∷ []) 3 table-Chain (omega arith)
      (omega arith)
