-- ===== src/Bytes.antt =====
-- kernel/vfs/utils.c: little-endian numbers and bits in a byte buffer, and the comparison of file
-- names. A pointer into a buffer is the buffer and an offset; a function that writes returns the
-- new buffer. `read_block` and `write_block` only pass on to the SD driver and are no part of this.
pub mod LittleEndian
pub mod Names
pub mod Bits
mod Tests
use os_final_program.Base.{
  ℕ, zero, suc, ◌+◌, ◌-◌, ◌*◌, ◌/◌, ◌%◌, ◌^◌, ◌≤◌, ◌<◌, bit_and, bit_or, bit_xor, ◌≡◌, refl, sym,
  ap, ap₂, subst, ◌∙◌, ◌≢◌, ◌↔◌, ◌⊎◌, inl, inr, Bool, true, false, not, ◌&&◌, ◌||◌, Option, none,
  some, List, [], ◌∷◌, ◌++◌, map, arith, ltb, leb, ◌==◌, if◌then◌else◌, ltb→lt, lt→ltb, ==_iff,
  ==_refl, ==_ne, Bool-cases, Option-cases, length, get_or, set, replicate, length-append,
  length-set, length-replicate, get_or-set_self, get_or-set_ne, set-get_or, get_or-replicate,
  get_or-set, contains, contains-append, byte_test, byte_test-set, byte_test-clear, byte_test-shift,
  byte_bounds, u32, shr, shl, low_bits, sub32, word_max, page_align_up, page_align_down,
}

-- The byte at an offset.
abbrev pub byte_at : List ℕ → ℕ → ℕ
byte_at buf i = get_or buf i 0

pub get_u16 : List ℕ → ℕ → ℕ
get_u16 buf ch = (byte_at buf ch + byte_at buf (ch + 1) * 2 ^ 8) % 2 ^ 16

unfoldable pub get_u32 : List ℕ → ℕ → ℕ
get_u32 buf ch =
    (byte_at buf ch
      + byte_at buf (ch + 1) * 2 ^ 8
      + byte_at buf (ch + 2) * 2 ^ 16
      + byte_at buf (ch + 3) * 2 ^ 24)
    % 2 ^ 32

pub set_u16 : List ℕ → ℕ → ℕ → List ℕ
set_u16 buf ch num = let b = set buf ch (low_bits num 8) in set b (ch + 1) (low_bits (shr num 8) 8)

unfoldable pub set_u32 : List ℕ → ℕ → ℕ → List ℕ
set_u32 buf ch num =
    let b = set buf ch (low_bits num 8) in
    let c = set b (ch + 1) (low_bits (shr num 8) 8) in
    let d = set c (ch + 2) (low_bits (shr num 16) 8) in set d (ch + 3) (low_bits (shr num 24) 8)

-- `struct qstr`: a name and its length.
pub record Qstr : Type 0 where
  pub name : List ℕ
  pub len : ℕ

-- The loop over the `n` characters from `i` on.
compare_from : List ℕ → List ℕ → ℕ → ℕ → ℕ
compare_from a b i zero = 0
compare_from a b i (suc n) =
    let rest = compare_from a b (i + 1) n in if byte_at a i == byte_at b i then rest else 1

-- 0 for equal names.
pub generic_compare_filename : Qstr → Qstr → ℕ
unfolding compare_from
generic_compare_filename a b = if a.len == b.len then compare_from a.name b.name 0 a.len else 1

pub get_bit : List ℕ → ℕ → Bool
get_bit bitmap index = not (bit_and (byte_at bitmap (index / 8)) (2 ^ (index % 8)) == 0)

pub set_bit : List ℕ → ℕ → List ℕ
set_bit bitmap index =
    set bitmap (index / 8) (bit_or (byte_at bitmap (index / 8)) (2 ^ (index % 8)))

-- The mask is turned round by `mask ^ 0xFF`.
pub reset_bit : List ℕ → ℕ → List ℕ
reset_bit bitmap index =
    set bitmap (index / 8) (bit_and (byte_at bitmap (index / 8)) (bit_xor (2 ^ (index % 8)) 255))
