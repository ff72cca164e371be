-- ===== src/Bytes/Tests.antt =====
-- Runs over small buffers, and the theorems at them.
use os_final_program.Base.{
  ℕ, zero, suc, ◌+◌, ◌<◌, ◌≡◌, refl, ◌⊎◌, true, false, List, [], ◌∷◌, arith, length,
}
use os_final_program.Bytes.{
  byte_at, get_u32, set_u32, get_bit, set_bit, reset_bit, Qstr, generic_compare_filename,
}
use os_final_program.Bytes.LittleEndian.{get_u32-set_u32}
use os_final_program.Bytes.Bits.{get_bit-writes}
use os_final_program.Bytes.Names.{SameName, generic_compare_filename-decides}

abbrev five : List ℕ
five = 1 ∷ 2 ∷ 3 ∷ 4 ∷ 250 ∷ []

five_bytes : (i : ℕ) → byte_at five i < 256
five_bytes zero = omega arith
five_bytes (suc zero) = omega arith
five_bytes (suc (suc zero)) = omega arith
five_bytes (suc (suc (suc zero))) = omega arith
five_bytes (suc (suc (suc (suc zero)))) = omega arith
five_bytes (suc (suc (suc (suc (suc i))))) = omega arith

five_read : get_u32 five 1 ≡ 0xfa040302
unfolding get_u32
five_read = refl

get_u32-set_u32_example :
    (get_u32 (set_u32 five 1 0x01020304) 1 ≡ 0x01020304)
    × ((j : ℕ) → (j < 1) ⊎ (1 + 3 < j) → byte_at (set_u32 five 1 0x01020304) j ≡ byte_at five j)
    × (length (set_u32 five 1 0x01020304) ≡ 5)
get_u32-set_u32_example = get_u32-set_u32 five 1 0x01020304 (omega arith) (omega arith)

get_bit-writes_example :
    (get_bit (set_bit five 18) 18 ≡ true) × (get_bit (reset_bit five 18) 18 ≡ false)
get_bit-writes_example = get_bit-writes five 18 18 (omega arith) five_bytes

abbrev name_ab : Qstr
name_ab = record { name = b'a' ∷ b'b' ∷ []; len = 2 }

abbrev name_ac : Qstr
name_ac = record { name = b'a' ∷ b'c' ∷ []; len = 2 }

generic_compare_filename-decides_example :
    ((generic_compare_filename name_ab name_ac ≡ 0) × SameName name_ab name_ac)
    ⊎ ((generic_compare_filename name_ab name_ac ≡ 1) × ¬ SameName name_ab name_ac)
generic_compare_filename-decides_example = generic_compare_filename-decides name_ab name_ac
