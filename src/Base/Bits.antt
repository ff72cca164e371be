-- ===== src/Base/Bits.antt =====
-- The bits of a byte: the laws of testing, setting and clearing one of the eight, by a table.
use Prim.Native.Nat.{ℕ, zero, suc, ◌-◌, ◌/◌, ◌^◌, ◌<◌, bit_and, bit_or}
use mathlib.Core.Path.{◌≡◌, refl}
use mathlib.Core.Bool.{Bool, true, false, not, ◌&&◌, ◌||◌}
use native.Mathlib.Omega.{arith}
use package.os_final_program.Base.Tests.{◌==◌, ltb}

-- A test passes at every number under a bound.
every : (ℕ → Bool) → ℕ → Bool
every test zero = true
every test (suc bound) = every test bound && test bound

every-holds : (test : ℕ → Bool) (bound i : ℕ) → i < bound → every test bound ≡ true → test i ≡ true
unfolding every
every-holds test zero i low pass = absurd (omega arith)
every-holds test (suc bound) i low pass = ground (arith, every-holds test bound i)

same : Bool → Bool → Bool
same true b = b
same false b = not b

eq_of_same : (a b : Bool) → same a b ≡ true → a ≡ b
unfolding same
eq_of_same a b h = ground arith

-- `byte & (1 << k)` is not zero.
abbrev pub byte_test : ℕ → ℕ → Bool
byte_test b k = not (bit_and b (2 ^ k) == 0)

-- What holds of a byte, a bit and a bit is checked at every value.
module _ (p : ℕ → ℕ → ℕ → Bool) where
  table : Bool
  table = every (λ b. every (λ k. every (λ j. p b k j) 8) 8) 256

  table_sound : table ≡ true → (b k j : ℕ) → b < 256 → k < 8 → j < 8 → p b k j ≡ true
  unfolding table
  table_sound h b k j hb hk hj =
      every-holds _ 8 j hj (every-holds _ 8 k hk (every-holds _ 256 b hb h))

set_law : ℕ → ℕ → ℕ → Bool
set_law b k j = same (byte_test (bit_or b (2 ^ k)) j) ((k == j) || byte_test b j)

pub byte_test-set :
    (b k j : ℕ)
    → b < 256
    → k < 8
    → j < 8
    → byte_test (bit_or b (2 ^ k)) j ≡ ((k == j) || byte_test b j)
unfolding set_law table every same
byte_test-set b k j hb hk hj = eq_of_same _ _ (table_sound set_law refl b k j hb hk hj)

clear_law : ℕ → ℕ → ℕ → Bool
clear_law b k j = same (byte_test (bit_and b (255 - 2 ^ k)) j) (not (k == j) && byte_test b j)

pub byte_test-clear :
    (b k j : ℕ)
    → b < 256
    → k < 8
    → j < 8
    → byte_test (bit_and b (255 - 2 ^ k)) j ≡ (not (k == j) && byte_test b j)
unfolding clear_law table every same
byte_test-clear b k j hb hk hj = eq_of_same _ _ (table_sound clear_law refl b k j hb hk hj)

shift_law : ℕ → ℕ → ℕ → Bool
shift_law b k j = same (bit_and (b / 2 ^ k) 1 == 0) (not (byte_test b k))

-- `(byte >> k) & 1` reads the same bit.
pub byte_test-shift :
    (b k : ℕ) → b < 256 → k < 8 → (bit_and (b / 2 ^ k) 1 == 0) ≡ not (byte_test b k)
unfolding shift_law table every same
byte_test-shift b k hb hk = eq_of_same _ _ (table_sound shift_law refl b k 0 hb hk (omega arith))

bound_law : ℕ → ℕ → ℕ → Bool
bound_law b k j = ltb (bit_or b (2 ^ k)) 256 && ltb (bit_and b (255 - 2 ^ k)) 256

-- Setting or clearing a bit of a byte gives a byte.
pub byte_bounds :
    (b k : ℕ) → b < 256 → k < 8 → (bit_or b (2 ^ k) < 256) × (bit_and b (255 - 2 ^ k) < 256)
unfolding bound_law table every
byte_bounds b k hb hk =
    let h : bound_law b k 0 ≡ true = table_sound bound_law refl b k 0 hb hk (omega arith) in
    ground arith
