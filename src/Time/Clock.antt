-- ===== src/Time/Clock.antt =====
-- The text of `get_time_string` read back.
use os_final_program.Base.{
  ℕ, zero, suc, ◌+◌, ◌-◌, ◌*◌, ◌/◌, ◌%◌, ◌≤◌, ◌<◌, ◌≡◌, refl, subst, List, arith, length, get_or,
  word_max,
}
use os_final_program.Time.{seconds_of, clock_text, get_time_string}

-- The number in the two characters from `i` on.
abbrev pub two_digits : List ℕ → ℕ → ℕ
two_digits text i = (get_or text i 0 - 48) * 10 + (get_or text (i + 1) 0 - 48)

-- The text is `hh:mm:ss`, with `hh` below 24 and `mm` and `ss` below 60, for that number of seconds.
pub record Shows (text : List ℕ) (seconds : ℕ) : Type 0 where
  pub size : length text ≡ 8
  pub colons : (get_or text 2 0 ≡ 58) × (get_or text 5 0 ≡ 58)
  pub digits : (i : ℕ) → i < 8 → i % 3 < 2 → (48 ≤ get_or text i 0) × (get_or text i 0 ≤ 57)
  pub hours : two_digits text 0 < 24
  pub minutes : two_digits text 3 < 60
  pub seconds_field : two_digits text 6 < 60
  pub reads : two_digits text 0 * 3600 + two_digits text 3 * 60 + two_digits text 6 ≡ seconds

clock_text-Shows : (n : ℕ) → Shows (clock_text n) (n % 86400)
unfolding clock_text
clock_text-Shows n = record {
  size = refl;
  colons = (refl, refl);
  digits = λ i l k. digit i l k;
  hours = omega arith;
  minutes = omega arith;
  seconds_field = omega arith;
  reads = omega arith;
}
  where
    digit :
        (i : ℕ)
        → i < 8
        → i % 3 < 2
        → (48 ≤ get_or (clock_text n) i 0) × (get_or (clock_text n) i 0 ≤ 57)
    digit zero l k = omega arith
    digit (suc zero) l k = omega arith
    digit (suc (suc zero)) l k = absurd (omega arith)
    digit (suc (suc (suc zero))) l k = omega arith
    digit (suc (suc (suc (suc zero)))) l k = omega arith
    digit (suc (suc (suc (suc (suc zero))))) l k = absurd (omega arith)
    digit (suc (suc (suc (suc (suc (suc zero)))))) l k = omega arith
    digit (suc (suc (suc (suc (suc (suc (suc zero))))))) l k = omega arith
    digit (suc (suc (suc (suc (suc (suc (suc (suc i)))))))) l k = absurd (omega arith)

-- With fewer than 2^40 ticks, the text shows the time of day, as `hh:mm:ss`, of the whole seconds at a
-- hundred million ticks in a second.
pub get_time_string-Shows :
    (high low : ℕ)
    → high < 256
    → low ≤ word_max
    → Shows (get_time_string high low) ((high * 4294967296 + low) / 100000000 % 86400)
unfolding get_time_string seconds_of
get_time_string-Shows high low h l =
    subst (λ n. Shows (clock_text (seconds_of high low)) (n % 86400)) exact
      (clock_text-Shows (seconds_of high low))
  where
    exact : seconds_of high low ≡ (high * 4294967296 + low) / 100000000
    exact = omega arith
