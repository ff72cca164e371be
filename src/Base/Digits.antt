-- ===== src/Base/Digits.antt =====
-- `bit_and` and `bit_xor` of numbers that are doubled, and of a number and 1.
use Prim.Native.Nat.{
  ℕ, zero, suc, ◌+◌, ◌-◌, ◌*◌, ◌/◌, ◌%◌, ◌^◌, ◌≤◌, ◌<◌, min, max, differ, digits, bitwise, bit_and,
  bit_xor, bit_or, bit_and-bitwise, bit_xor-bitwise, bit_or-bitwise,
}
use mathlib.Core.Logic.{inl, inr}
use package.os_final_program.Base.Tests.{◌==◌, if◌then◌else◌, Bool-cases, ==_iff}
use mathlib.Core.Path.{◌≡◌, refl, sym, ap, ap₂, ◌∙◌}
use native.Mathlib.Omega.{arith}
use native.Mathlib.Numerals.{unary_clauses}

module _ (z : ℕ → ℕ) (f : ℕ → ℕ → ℕ) where
  no_digits : (n b : ℕ) → digits z f n 0 b ≡ z b
  no_digits zero b = refl
  no_digits (suc n) b = refl

  -- More digits than the number has change nothing.
  more_digits : (k n a b : ℕ) → a ≤ n → digits z f n a b ≡ digits z f (n + k) a b
  more_digits k n zero b l = no_digits n b ∙ sym (no_digits (n + k) b)
  more_digits k zero (suc a) b l = absurd (omega arith)
  more_digits k (suc n) (suc a) b l =
      let front : ℕ = suc a / 2 in
      ap (λ d. d * 2 + f (suc a % 2) (b % 2)) (more_digits k n front (b / 2) (omega arith))
      ∙ ap (λ c. digits z f c (suc a) b) shifted
    where
      shifted : suc (n + k) ≡ suc n + k
      shifted = omega arith

  -- The last digit, and those in front of it.
  bitwise_step :
      ((b : ℕ) → z b ≡ z (b / 2) * 2 + f 0 (b % 2))
      → (a b : ℕ) → bitwise z f a b ≡ bitwise z f (a / 2) (b / 2) * 2 + f (a % 2) (b % 2)
  bitwise_step h zero b = h b
  bitwise_step h (suc a) b =
      let half : ℕ = suc a / 2 in
      let count : half + (a - half) ≡ a = omega arith in
      ap (λ d. d * 2 + f (suc a % 2) (b % 2))
        (ap (λ c. digits z f c half (b / 2)) (sym count)
          ∙ sym (more_digits (a - half) half half (b / 2) (omega arith)))

and_step : (a b : ℕ) → bit_and a b ≡ bit_and (a / 2) (b / 2) * 2 + min (a % 2) (b % 2)
and_step a b =
    let whole : bit_and a b ≡ bitwise (λ b. 0) min a b = bit_and-bitwise a b in
    let rest : bit_and (a / 2) (b / 2) ≡ bitwise (λ b. 0) min (a / 2) (b / 2) =
      bit_and-bitwise (a / 2) (b / 2) in
    whole
    ∙ bitwise_step (λ b. 0) min (λ b. omega arith) a b
    ∙ ap (λ d. d * 2 + min (a % 2) (b % 2)) (sym rest)

xor_step : (a b : ℕ) → bit_xor a b ≡ bit_xor (a / 2) (b / 2) * 2 + differ (a % 2) (b % 2)
xor_step a b =
    let whole : bit_xor a b ≡ bitwise (λ b. b) differ a b = bit_xor-bitwise a b in
    let rest : bit_xor (a / 2) (b / 2) ≡ bitwise (λ b. b) differ (a / 2) (b / 2) =
      bit_xor-bitwise (a / 2) (b / 2) in
    whole
    ∙ bitwise_step (λ b. b) differ (λ b. omega arith) a b
    ∙ ap (λ d. d * 2 + differ (a % 2) (b % 2)) (sym rest)

or_step : (a b : ℕ) → bit_or a b ≡ bit_or (a / 2) (b / 2) * 2 + max (a % 2) (b % 2)
or_step a b =
    let whole : bit_or a b ≡ bitwise (λ b. b) max a b = bit_or-bitwise a b in
    let rest : bit_or (a / 2) (b / 2) ≡ bitwise (λ b. b) max (a / 2) (b / 2) =
      bit_or-bitwise (a / 2) (b / 2) in
    whole
    ∙ bitwise_step (λ b. b) max (λ b. omega arith) a b
    ∙ ap (λ d. d * 2 + max (a % 2) (b % 2)) (sym rest)

halved : (a : ℕ) → a * 2 / 2 ≡ a
halved a = omega arith

pub bit_and_double : (a b : ℕ) → bit_and (a * 2) (b * 2) ≡ bit_and a b * 2
bit_and_double a b = omega (arith, and_step (a * 2) (b * 2), ap₂ bit_and (halved a) (halved b))

pub bit_xor_double : (a b : ℕ) → bit_xor (a * 2) (b * 2) ≡ bit_xor a b * 2
bit_xor_double a b =
    let even : (c : ℕ) → c * 2 % 2 ≡ 0 = λ c. omega arith in
    xor_step (a * 2) (b * 2)
    ∙ ap₂ (λ d e. d * 2 + e) (ap₂ bit_xor (halved a) (halved b)) (ap₂ differ (even a) (even b))
    ∙ omega arith

xor_zero_below : (n a : ℕ) → a ≤ n → bit_xor a 0 ≡ a
xor_zero_below zero a h = let e : a ≡ 0 = omega arith in rw e (bit_xor-bitwise 0 0)
xor_zero_below (suc n) a h = elim (Bool-cases (a == 0)) [
  | inl e ↦ rw ((==_iff a 0).0 e) (bit_xor-bitwise 0 0)
  | inr e ↦
      let l : a / 2 ≤ n = ground arith in
      xor_step a 0 ∙ ap₂ (λ d e. d * 2 + e) (xor_zero_below n (a / 2) l) (last a) ∙ omega arith
]
  where
    last : (a : ℕ) → differ (a % 2) 0 ≡ a % 2
    last a = go (a % 2)
      where
        go : (d : ℕ) → differ d 0 ≡ d
        go zero = refl
        go (suc d) = refl

and_self_below : (n a : ℕ) → a ≤ n → bit_and a a ≡ a
and_self_below zero a h = let e : a ≡ 0 = omega arith in rw e (bit_and-bitwise 0 0)
and_self_below (suc n) a h = elim (Bool-cases (a == 0)) [
  | inl e ↦ rw ((==_iff a 0).0 e) (bit_and-bitwise 0 0)
  | inr e ↦
      let l : a / 2 ≤ n = ground arith in omega (arith, and_step a a, and_self_below n (a / 2) l)
]

-- The other number of an even one and the next.
unfoldable pub flip : ℕ → ℕ
flip k = if k % 2 == 0 then k + 1 else k - 1

pub bit_xor-one : (k : ℕ) → bit_xor k 1 ≡ flip k
unfolding flip
bit_xor-one k =
    xor_step k 1
    ∙ ap (λ d. d * 2 + differ (k % 2) 1) (xor_zero_below (k / 2) (k / 2) (omega arith))
    ∙ last
  where
    last : k / 2 * 2 + differ (k % 2) 1 ≡ (if k % 2 == 0 then k + 1 else k - 1)
    last = elim (Bool-cases (k % 2 == 0)) [
      | inl e ↦ let z : k % 2 ≡ 0 = (==_iff _ _).0 e in rw (e, z) (omega (arith, z))
      | inr e ↦ let z : k % 2 ≡ 1 = ground arith in rw (e, z) (omega (arith, z))
    ]

pub bit_and-flip : (k : ℕ) → bit_and (flip k) k ≡ k / 2 * 2
unfolding flip
bit_and-flip k =
    let h : flip k / 2 ≡ k / 2 = ground arith in
    let d : min (flip k % 2) (k % 2) ≡ 0 = ground arith in
    and_step (flip k) k
    ∙ ap₂ (λ d e. d * 2 + e)
        (ap (λ c. bit_and c (k / 2)) h ∙ and_self_below (k / 2) (k / 2) (omega arith)) d
    ∙ omega arith

-- A multiple of `2 ^ k` and a number with fewer digits.
or_zero_below : (n a : ℕ) → a ≤ n → bit_or a 0 ≡ a
or_zero_below zero a h = let e : a ≡ 0 = omega arith in rw e (bit_or-bitwise 0 0)
or_zero_below (suc n) a h = elim (Bool-cases (a == 0)) [
  | inl e ↦ rw ((==_iff a 0).0 e) (bit_or-bitwise 0 0)
  | inr e ↦
      let l : a / 2 ≤ n = ground arith in omega (arith, or_step a 0, or_zero_below n (a / 2) l)
]

pub bit_or-disjoint : (k a b : ℕ) → b < 2 ^ k → bit_or (a * 2 ^ k) b ≡ a * 2 ^ k + b
bit_or-disjoint zero a b h =
    let e : b ≡ 0 = omega arith in rw e (or_zero_below (a * 1) (a * 1) (omega arith) ∙ omega arith)
bit_or-disjoint (suc k) a b h =
    let two : 2 ^ suc k ≡ 2 ^ k * 2 = simp unary_clauses (omega arith) in
    let e : a * 2 ^ suc k ≡ a * 2 ^ k * 2 = ap (λ p. a * p) two ∙ grind arith in
    let low : b / 2 < 2 ^ k = omega (arith, h, two) in
    ap (λ c. bit_or c b) e
    ∙ or_step (a * 2 ^ k * 2) b
    ∙ ap (λ c. bit_or c (b / 2) * 2 + max (a * 2 ^ k * 2 % 2) (b % 2)) (halved (a * 2 ^ k))
    ∙ ap (λ c. c * 2 + max (a * 2 ^ k * 2 % 2) (b % 2)) (bit_or-disjoint k a (b / 2) low)
    ∙ omega (arith, e)
