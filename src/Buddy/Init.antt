-- ===== src/Buddy/Init.antt =====
-- `init_buddy` gives back all pages.
use os_final_program.Base.{ℕ, zero, suc, ◌+◌, ◌*◌, ◌≡◌, refl, subst, ◌∙◌, false, ◌||◌, arith, ltb}
use mathlib.Core.Path.{fun_ext}
use os_final_program.Buddy.{Buddy, reserved, free_each, init_buddy, free_block}
use os_final_program.Buddy.Halves.{first_page, up-zero}
use os_final_program.Buddy.Tiling.{within_block}
use os_final_program.Buddy.Rep.{Rep}
use os_final_program.Buddy.Free.{free_block-Frees}

-- Before, each page is a block in use by itself.
pub reserved-Rep : (n : ℕ) → Rep reserved (λ p. 0) (λ p. false) (n * 16) (n * 16) (n * 16)
unfolding reserved
reserved-Rep n = record {
  tiling = record {
    small = λ p. omega arith;
    same = λ p q e. refl;
    fr_same = λ p q e. refl;
    inside = λ p e. absurd (cc);
  };
  lists = λ i t. refl;
  levels = λ t i e x y. refl;
  flags = λ t i e x y. refl;
}

page_block : (i p : ℕ) → (within_block 0 i p || ltb p i) ≡ ltb p (i + 1)
page_block i p = rw (up-zero p, up-zero i) (ground arith)

free_each-frees :
    (m n i : ℕ) (b : Buddy) (lv : ℕ → ℕ)
    → i + m ≡ n * 16
    → Rep b lv (λ p. ltb p i) (n * 16) (n * 16) (n * 16)
    → ((p : ℕ) → ltb p i ≡ false → lv p ≡ 0)
    → (lv' : ℕ → ℕ) × Rep (free_each m b i) lv' (λ p. ltb p (n * 16)) (n * 16) (n * 16) (n * 16)
unfolding free_each
free_each-frees zero n i b lv e r l =
    (lv, subst (λ k. Rep b lv (λ p. ltb p k) (n * 16) (n * 16) (n * 16)) (omega (arith, e)) r)
free_each-frees (suc m) n i b lv e r l =
    let s =
      free_block-Frees b lv (λ p. ltb p i) n 0 i r (l i (ground arith)) (ground arith)
        (first_page i) (omega (arith, e)) in
    free_each-frees m n (i + 1) (free_block b i 0) s.0 (omega (arith, e))
      (subst (λ g. Rep (free_block b i 0) s.0 g (n * 16) (n * 16) (n * 16)) (fun_ext (page_block i))
        s.1)
      (λ p f. s.2 p (page_block i p ∙ f) ∙ l p (ground (arith, f)))

-- After `init_buddy` with a multiple of 16 pages, these stand for a tiling in which all of them are free.
pub init_buddy-Rep :
    (n : ℕ)
    → (lv : ℕ → ℕ) × Rep (init_buddy (n * 16)) lv (λ p. ltb p (n * 16)) (n * 16) (n * 16) (n * 16)
unfolding init_buddy
init_buddy-Rep n =
    free_each-frees (n * 16) n 0 reserved (λ p. 0) (omega arith)
      (subst (λ g. Rep reserved (λ p. 0) g (n * 16) (n * 16) (n * 16)) (fun_ext none_below)
        (reserved-Rep n))
      (λ p f. refl)
  where
    none_below : (p : ℕ) → false ≡ ltb p 0
    none_below p = ground arith
