-- ===== src/Bytes/Bits.antt =====
-- `get_bit`, `set_bit` and `reset_bit` as operations on a set of indices.
use os_final_program.Base.{
  ℕ, zero, suc, ◌-◌, ◌/◌, ◌%◌, ◌^◌, ◌<◌, bit_xor, ◌≡◌, refl, not, ◌&&◌, ◌||◌, List, arith, ◌==◌,
  length,
}
use os_final_program.Bitmap.{bit_at, bit_at-set, bit_at-clear}
use os_final_program.Bytes.{byte_at, get_bit, set_bit, reset_bit}

mask_turned : (k : ℕ) → k < 8 → bit_xor (2 ^ k) 255 ≡ 255 - 2 ^ k
mask_turned zero h = refl
mask_turned (suc zero) h = refl
mask_turned (suc (suc zero)) h = refl
mask_turned (suc (suc (suc zero))) h = refl
mask_turned (suc (suc (suc (suc zero)))) h = refl
mask_turned (suc (suc (suc (suc (suc zero))))) h = refl
mask_turned (suc (suc (suc (suc (suc (suc zero)))))) h = refl
mask_turned (suc (suc (suc (suc (suc (suc (suc zero))))))) h = refl
mask_turned (suc (suc (suc (suc (suc (suc (suc (suc k)))))))) h = absurd (omega arith)

module _ (m : List ℕ) (i j : ℕ) (inside : i / 8 < length m)
    (bytes : (k : ℕ) → byte_at m k < 256) where
  -- In a buffer of bytes that holds index `i`, setting bit `i` makes it 1, resetting it makes it 0,
  -- and every other bit stays.
  pub get_bit-writes :
      (get_bit (set_bit m i) j ≡ ((i == j) || get_bit m j))
      × (get_bit (reset_bit m i) j ≡ (not (i == j) && get_bit m j))
  unfolding get_bit set_bit reset_bit bit_at
  get_bit-writes = (
    bit_at-set m i j inside bytes,
    rw (mask_turned (i % 8) (omega arith)) (bit_at-clear m i j inside bytes),
  )
