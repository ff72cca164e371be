-- ===== src/Time.antt =====
-- `get_time_string` of kernel/time/time.c: the clock from the 64 bits of the tick counter. The counter runs at
-- 100 MHz. Reading it and putting the text on the screen are no part of it.
use os_final_program.Base.{
  ℕ, zero, suc, ◌+◌, ◌-◌, ◌*◌, ◌/◌, ◌%◌, ◌^◌, ◌≤◌, ◌<◌, bit_and, bit_or, bit_xor, ◌≡◌, refl, sym,
  ap, ap₂, subst, ◌∙◌, ◌≢◌, ◌↔◌, ◌⊎◌, inl, inr, Bool, true, false, not, ◌&&◌, ◌||◌, Option, none,
  some, List, [], ◌∷◌, ◌++◌, map, arith, ltb, leb, ◌==◌, if◌then◌else◌, ltb→lt, lt→ltb, ==_iff,
  ==_refl, ==_ne, Bool-cases, Option-cases, length, get_or, set, replicate, length-append,
  length-set, length-replicate, get_or-set_self, get_or-set_ne, set-get_or, get_or-replicate,
  get_or-set, contains, contains-append, byte_test, byte_test-set, byte_test-clear, byte_test-shift,
  byte_bounds, u32, shr, shl, low_bits, sub32, word_max, page_align_up, page_align_down,
}
pub mod Clock
mod Tests

-- The seconds in `second`, before they are split; `|` joins numbers that have no digit in common.
pub seconds_of : ℕ → ℕ → ℕ
seconds_of ticks_high ticks_low =
    let low = shr ticks_low 8 + shl ticks_high 24 in
    let a = shr ticks_high 8 % 390625 in
    let second = u32 (u32 (a * 10995) + u32 (a * 45421) % 390625) in u32 (second + low / 390625)

-- The eight characters in `buf`.
pub clock_text : ℕ → List ℕ
clock_text seconds =
    let minute = seconds / 60 in
    let hour = minute / 60 % 24 in
    let m = minute % 60 in
    let s = seconds % 60 in
    (hour / 10 + 48)
    ∷ (hour % 10 + 48)
    ∷ 58
    ∷ (m / 10 + 48)
    ∷ (m % 10 + 48)
    ∷ 58
    ∷ (s / 10 + 48)
    ∷ (s % 10 + 48)
    ∷ []

pub get_time_string : ℕ → ℕ → List ℕ
unfolding clock_text seconds_of
get_time_string ticks_high ticks_low = clock_text (seconds_of ticks_high ticks_low)
