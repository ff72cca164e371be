-- ===== src/Base/Words.antt =====
-- Machine words: a 32-bit value is a native number below `2 ^ 32`.
use Prim.Native.Nat.{ℕ, ◌+◌, ◌-◌, ◌*◌, ◌/◌, ◌%◌, ◌^◌}

-- The value that a `u32` holds after an operation.
abbrev pub u32 : ℕ → ℕ
u32 n = n % 4294967296

-- `x >> k`, `x << k` in a `u32`, and the low `k` bits.
abbrev pub shr : ℕ → ℕ → ℕ
shr x k = x / 2 ^ k

abbrev pub shl : ℕ → ℕ → ℕ
shl x k = u32 (x * 2 ^ k)

abbrev pub low_bits : ℕ → ℕ → ℕ
low_bits x k = x % 2 ^ k

-- `a - b` in a `u32`.
abbrev pub sub32 : ℕ → ℕ → ℕ
sub32 a b = (a + 4294967296 - b) % 4294967296

-- The word whose bits are all set.
abbrev pub word_max : ℕ
word_max = 4294967295

-- `UPPER_ALLIGN(x, 1 << 12)` of a `u32`.
abbrev pub page_align_up : ℕ → ℕ
page_align_up x = u32 (x + 4095) / 4096 * 4096

-- `x & PAGE_ALIGN`, which is also `x & PAGE_MASK`.
abbrev pub page_align_down : ℕ → ℕ
page_align_down x = x / 4096 * 4096
