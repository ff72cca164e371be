-- ===== src/Buddy/Rep.antt =====
-- How the marks of the pages and the free lists stand for a tiling.
use os_final_program.Base.{ℕ, ◌*◌, ◌<◌, ◌≡◌, ◌≢◌, Bool, false, ◌&&◌, arith, ◌==◌, contains}
use os_final_program.Buddy.{Buddy}
use os_final_program.Buddy.Halves.{base}
use os_final_program.Buddy.Tiling.{Tiling}

-- The list of level `i` has the first pages of the free blocks of that level. The first page of a block
-- bears the block's level and whether it is free; the pages `x` and `y` need not.
pub record Rep (b : Buddy) (lv : ℕ → ℕ) (fr : ℕ → Bool) (total x y : ℕ) : Type 0 where
  pub tiling : Tiling lv fr total
  pub lists : (i t : ℕ) → contains (b.free_head i) t ≡ (fr t && ((lv t == i) && (t == base i t)))
  pub levels : (t : ℕ) → t < total → t ≡ base (lv t) t → t ≢ x → t ≢ y → b.bplevel t ≡ lv t
  pub flags : (t : ℕ) → t < total → t ≡ base (lv t) t → t ≢ x → t ≢ y → (b.flag t == 0) ≡ fr t

-- A block that is being freed or split: not free, and its marks do not count, nor do those of page `y`.
pub record Pending (b : Buddy) (lv : ℕ → ℕ) (fr : ℕ → Bool) (n l h y : ℕ) : Type 0 where
  pub rep : Rep b lv fr (n * 16) h y
  pub level : lv h ≡ l
  pub busy : fr h ≡ false
  pub first : h ≡ base l h
  pub inside : h < n * 16

-- No page is `n * 16`.
pub never : (n t : ℕ) → t < n * 16 → t ≢ n * 16
never n t i e = omega (arith, i, e)
