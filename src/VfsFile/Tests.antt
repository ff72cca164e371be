-- ===== src/VfsFile/Tests.antt =====
-- A file of twelve bytes, each its own position, in pages of five.
use os_final_program.Base.{
  ℕ, ◌+◌, ◌*◌, ◌<◌, ◌≡◌, refl, Option, some, [], ◌∷◌, arith, length, get_or,
}
use os_final_program.VfsFile.{generic_file_read}
use os_final_program.VfsFile.Reads.{generic_file_read-bytes}

abbrev pages : ℕ → Option (ℕ → ℕ)
pages p = some (λ o. p * 5 + o)

generic_file_read-bytes_example :
    (length (generic_file_read 5 12 pages 3 20) ≡ 9)
    × ((k : ℕ) → k < 20 → 3 + k < 12 → get_or (generic_file_read 5 12 pages 3 20) k 0 ≡ 3 + k)
generic_file_read-bytes_example =
    generic_file_read-bytes 5 12 3 20 pages (λ a. a) (λ p o. p * 5 + o) (omega arith) (omega arith)
      (omega arith) (omega arith) (λ p o l. refl) (λ p l m. refl)

-- No more than is asked for.
read_within : generic_file_read 5 12 pages 3 4 ≡ 3 ∷ 4 ∷ 5 ∷ 6 ∷ []
unfolding generic_file_read
read_within = refl

-- Up to the end of the file.
read_to_end : generic_file_read 5 12 pages 3 20 ≡ 3 ∷ 4 ∷ 5 ∷ 6 ∷ 7 ∷ 8 ∷ 9 ∷ 10 ∷ 11 ∷ []
unfolding generic_file_read
read_to_end = refl
