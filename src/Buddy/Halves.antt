-- ===== src/Buddy/Halves.antt =====
-- Blocks of `2 ^ l` pages: the number of the block that a page is in, and its first page.
use native.Mathlib.Numerals.{unary_clauses}
use os_final_program.Base.{
  ℕ, zero, suc, ◌+◌, ◌-◌, ◌*◌, ◌/◌, ◌%◌, ◌^◌, ◌≤◌, ◌<◌, bit_and, bit_xor, ◌≡◌, refl, sym, ap, ap₂,
  subst, ◌∙◌, ◌≢◌, ◌⊎◌, inl, inr, arith, ◌==◌, ==_iff, Bool-cases, flip, bit_and-flip, bit_xor-one,
  bit_and_double, bit_xor_double,
}

-- The number of the block of level `l` around page `p`.
pub up : ℕ → ℕ → ℕ
up zero p = p
up (suc l) p = up l p / 2

-- The first page of the block with number `k`.
pub down : ℕ → ℕ → ℕ
down zero k = k
down (suc l) k = down l (k * 2)

abbrev pub base : ℕ → ℕ → ℕ
base l p = down l (up l p)

pub up-zero : (p : ℕ) → up 0 p ≡ p
unfolding up
up-zero p = refl

pub first_page : (p : ℕ) → p ≡ base 0 p
unfolding up down
first_page p = refl

pub up-down : (l k : ℕ) → up l (down l k) ≡ k
unfolding up down
up-down zero k = refl
up-down (suc l) k = omega (arith, up-down l (k * 2))

pub up-base : (l p : ℕ) → up l (base l p) ≡ up l p
up-base l p = up-down l (up l p)

-- Pages of one block are in one block of each higher level.
pub up_add : (d l p q : ℕ) → up l p ≡ up l q → up (d + l) p ≡ up (d + l) q
unfolding up
up_add zero l p q e = ap (λ k. up k p) (omega arith) ∙ e ∙ ap (λ k. up k q) (omega arith)
up_add (suc d) l p q e =
    let s : suc d + l ≡ suc (d + l) = omega arith in
    ap (λ k. up k p) s ∙ ap (λ k. k / 2) (up_add d l p q e) ∙ ap (λ k. up k q) (sym s)

pub up_mono : (l m p q : ℕ) → l ≤ m → up l p ≡ up l q → up m p ≡ up m q
up_mono l m p q h e =
    let s : (m - l) + l ≡ m = omega arith in subst (λ k. up k p ≡ up k q) s (up_add (m - l) l p q e)

pub up-suc : (l p : ℕ) → up (suc l) p ≡ up l p / 2
unfolding up
up-suc l p = refl

-- A block has two halves.
pub up-halves :
    (l p h : ℕ) → up (suc l) p ≡ up (suc l) h → (up l p ≡ up l h) ⊎ (up l p ≡ flip (up l h))
unfolding up flip
up-halves l p h e = elim (Bool-cases (up l p == up l h)) [
  | inl z ↦ inl ((==_iff _ _).0 z)
  | inr z ↦ inr (ground (arith, e, z))
]

pub flip-half : (k : ℕ) → flip k / 2 ≡ k / 2
unfolding flip
flip-half k = ground arith

pub flip-ne : (k : ℕ) → flip k ≢ k
unfolding flip
flip-ne k = λ e. ground (arith, e)

pub down_mul : (l k : ℕ) → down l k ≡ k * 2 ^ l
unfolding down
down_mul zero k = omega arith
down_mul (suc l) k =
    let two : 2 ^ suc l ≡ 2 ^ l * 2 = simp unary_clauses (omega arith) in
    down_mul l (k * 2) ∙ grind (arith, two)

pub down-one : (l : ℕ) → down l 1 ≡ 2 ^ l
down-one l = down_mul l 1 ∙ omega arith

down_xor : (l a b : ℕ) → bit_xor (down l a) (down l b) ≡ down l (bit_xor a b)
unfolding down
down_xor zero a b = refl
down_xor (suc l) a b = down_xor l (a * 2) (b * 2) ∙ ap (down l) (bit_xor_double a b)

down_and : (l a b : ℕ) → bit_and (down l a) (down l b) ≡ down l (bit_and a b)
unfolding down
down_and zero a b = refl
down_and (suc l) a b = down_and l (a * 2) (b * 2) ∙ ap (down l) (bit_and_double a b)

-- The pair that the code computes is the other half of the block above.
pub pair-flip : (l h : ℕ) → h ≡ base l h → bit_xor h (2 ^ l) ≡ down l (flip (up l h))
pair-flip l h e =
    ap₂ bit_xor e (sym (down-one l)) ∙ down_xor l (up l h) 1 ∙ ap (down l) (bit_xor-one (up l h))

-- And their common bits are the first page of the block above.
pub and-base : (l h : ℕ) → h ≡ base l h → bit_and (bit_xor h (2 ^ l)) h ≡ base (suc l) h
unfolding up down
and-base l h e =
    ap₂ bit_and (pair-flip l h e) e
    ∙ down_and l (flip (up l h)) (up l h)
    ∙ ap (down l) (bit_and-flip (up l h))

-- The second half of a block, as the split computes it.
pub second-half :
    (l h : ℕ)
    → h ≡ base (suc l) h
    → (h ≡ base l h) × (h + 2 ^ l ≡ down l (flip (up l h))) × (up l h % 2 ≡ 0)
unfolding up down flip
second-half l h e = (first, second, even)
  where
    k : ℕ
    k = up l h

    half : k ≡ k / 2 * 2
    half = ap (up l) e ∙ up-down l (k / 2 * 2)

    even : k % 2 ≡ 0
    even = omega (arith, half)

    first : h ≡ base l h
    first = e ∙ ap (down l) (sym half)

    next : flip k ≡ k + 1
    next = ground (arith, even)

    second : h + 2 ^ l ≡ down l (flip k)
    second =
        ap (λ p. p + 2 ^ l) (first ∙ down_mul l k)
        ∙ grind arith
        ∙ sym (down_mul l (k + 1))
        ∙ ap (down l) (sym next)

-- The first page of a block is the first page of the blocks below, too.
pub base_lower : (l m h : ℕ) → m ≤ l → h ≡ base l h → h ≡ base m h
unfolding up down
base_lower zero m h le e = let z : m ≡ 0 = omega arith in rw z refl
base_lower (suc l) m h le e = elim (Bool-cases (m == suc l)) [
  | inl z ↦ subst (λ k. h ≡ base k h) (sym ((==_iff _ _).0 z)) e
  | inr z ↦ base_lower l m h (ground (arith, le, z)) (second-half l h e).0
]

-- A block of level 4 lies below a multiple of 16 or not at all.
pub up-total : (p q n : ℕ) → up 4 p ≡ up 4 q → q < n * 16 → p < n * 16
unfolding up
up-total p q n e h = omega (arith, e, h)
