-- ===== src/Bytes/LittleEndian.antt =====
-- Numbers written to a buffer and read back.
use os_final_program.Base.{
  ℕ, ◌+◌, ◌^◌, ◌<◌, ◌≡◌, refl, sym, ap, ◌∙◌, ◌⊎◌, List, arith, ◌==◌, if◌then◌else◌, length, set,
  length-set, get_or-set, shr, low_bits,
}
use os_final_program.Bytes.{byte_at, get_u32, set_u32}

written_back :
    (buf : List ℕ) (ch j : ℕ)
    → (if ch + 3 == j
        then byte_at buf (ch + 3)
        else if ch + 2 == j
        then byte_at buf (ch + 2)
        else if ch + 1 == j
        then byte_at buf (ch + 1)
        else if ch == j
        then byte_at buf ch
        else byte_at buf j)
      ≡ byte_at buf j
written_back buf ch j = ground arith

module _ (buf : List ℕ) (ch num : ℕ) (inside : ch + 3 < length buf) where
  -- A write of a word puts its four bytes at the offset and leaves all others.
  set_u32-byte :
      (j : ℕ)
      → byte_at (set_u32 buf ch num) j ≡ (
          if ch + 3 == j
          then low_bits (shr num 24) 8
          else if ch + 2 == j
          then low_bits (shr num 16) 8
          else if ch + 1 == j
          then low_bits (shr num 8) 8
          else if ch == j
          then low_bits num 8
          else byte_at buf j)
  unfolding set_u32
  set_u32-byte j =
      let b : List ℕ = set buf ch (low_bits num 8) in
      let c : List ℕ = set b (ch + 1) (low_bits (shr num 8) 8) in
      let d : List ℕ = set c (ch + 2) (low_bits (shr num 16) 8) in
      let lb : length b ≡ length buf = length-set buf ch _ in
      let lc : length c ≡ length buf = length-set b (ch + 1) _ ∙ lb in
      let ld : length d ≡ length buf = length-set c (ch + 2) _ ∙ lc in
      rw (
        get_or-set d (ch + 3) j _ 0 (omega arith),
        get_or-set c (ch + 2) j _ 0 (omega arith),
        get_or-set b (ch + 1) j _ 0 (omega arith),
        get_or-set buf ch j _ 0 (omega arith),
      )

  set_u32-length : length (set_u32 buf ch num) ≡ length buf
  unfolding set_u32
  set_u32-length =
      length-set _ (ch + 3) _
      ∙ length-set _ (ch + 2) _
      ∙ length-set _ (ch + 1) _
      ∙ length-set buf ch _

  -- Reading at the offset gives back the number, for a number of 32 bits and an offset inside the
  -- buffer; every byte outside the four is as before, and so is the buffer's length.
  pub get_u32-set_u32 :
      num < 2 ^ 32
      → (get_u32 (set_u32 buf ch num) ch ≡ num)
        × ((j : ℕ) → (j < ch) ⊎ (ch + 3 < j) → byte_at (set_u32 buf ch num) j ≡ byte_at buf j)
        × (length (set_u32 buf ch num) ≡ length buf)
  unfolding get_u32
  get_u32-set_u32 h =
      let b0 : byte_at (set_u32 buf ch num) ch ≡ low_bits num 8 = set_u32-byte ch ∙ ground arith in
      let b1 : byte_at (set_u32 buf ch num) (ch + 1) ≡ low_bits (shr num 8) 8 =
        set_u32-byte (ch + 1) ∙ ground arith in
      let b2 : byte_at (set_u32 buf ch num) (ch + 2) ≡ low_bits (shr num 16) 8 =
        set_u32-byte (ch + 2) ∙ ground arith in
      let b3 : byte_at (set_u32 buf ch num) (ch + 3) ≡ low_bits (shr num 24) 8 =
        set_u32-byte (ch + 3) ∙ ground arith in
      (omega arith, λ j o. set_u32-byte j ∙ ground arith, set_u32-length)

module _ (buf : List ℕ) (ch : ℕ) (inside : ch + 3 < length buf)
    (bytes : (i : ℕ) → byte_at buf i < 256) where
  -- Writing back the word that was read changes no byte, in a buffer of bytes.
  pub set_u32-get_u32 : (j : ℕ) → byte_at (set_u32 buf ch (get_u32 buf ch)) j ≡ byte_at buf j
  unfolding get_u32
  set_u32-get_u32 j =
      let num : ℕ = get_u32 buf ch in
      let b0 : byte_at buf ch ≡ low_bits num 8 =
        omega (arith, bytes ch, bytes (ch + 1), bytes (ch + 2), bytes (ch + 3)) in
      let b1 : byte_at buf (ch + 1) ≡ low_bits (shr num 8) 8 =
        omega (arith, bytes ch, bytes (ch + 1), bytes (ch + 2), bytes (ch + 3)) in
      let b2 : byte_at buf (ch + 2) ≡ low_bits (shr num 16) 8 =
        omega (arith, bytes ch, bytes (ch + 1), bytes (ch + 2), bytes (ch + 3)) in
      let b3 : byte_at buf (ch + 3) ≡ low_bits (shr num 24) 8 =
        omega (arith, bytes ch, bytes (ch + 1), bytes (ch + 2), bytes (ch + 3)) in
      set_u32-byte buf ch num inside j ∙ rw (← b0, ← b1, ← b2, ← b3) (written_back buf ch j)

-- A word depends on its four bytes only.
pub get_u32_cong :
    (b c : List ℕ) (ch : ℕ)
    → ((j : ℕ) → j < 4 → byte_at b (ch + j) ≡ byte_at c (ch + j))
    → get_u32 b ch ≡ get_u32 c ch
unfolding get_u32
get_u32_cong b c ch h =
    let zero_off : ch + 0 ≡ ch = omega arith in
    let first : byte_at b ch ≡ byte_at c ch =
      ap (byte_at b) (sym zero_off) ∙ h 0 (omega arith) ∙ ap (byte_at c) zero_off in
    rw (first, h 1 (omega arith), h 2 (omega arith), h 3 (omega arith)) refl

pub get_u32_bound : (b : List ℕ) (ch : ℕ) → get_u32 b ch < 2 ^ 32
unfolding get_u32
get_u32_bound b ch = omega arith
