-- ===== src/Bootmm/Find.antt =====
-- `find_pages`: it ends, and it takes the first free page with enough pages behind it.
use os_final_program.Base.{
  ℕ, zero, suc, ◌+◌, ◌-◌, ◌≤◌, ◌<◌, ◌≡◌, refl, sym, ap, ◌∙◌, ◌≢◌, ◌⊎◌, inl, inr, ◌&&◌, Option, some,
  arith, ltb, leb, ◌==◌, if◌then◌else◌, ==_iff, ==_ne, Bool-cases, shl,
}
use os_final_program.Bootmm.{
  Bootmm, page_used, set_maps, upper_align, short, enough, count_pages, Found, not_found, at_page,
  out_of_fuel, find_loop, unit_align, take_pages, find_pages,
}
use native.Mathlib.Decide.{ℕ_discrete}

-- The inner loop tests the page that the outer one found free: it only counts.
count_pages_lem :
    (m : ℕ → ℕ) (i e t n : ℕ)
    → m i ≢ page_used
    → ((count_pages m i e t n ≡ enough (t + n)) × ((t + n ≤ e) ⊎ (n ≡ 0)))
      ⊎ ((count_pages m i e t n ≡ short) × (e < t + n))
unfolding count_pages
count_pages_lem m i e t zero h = let z : t + 0 ≡ t = omega arith in inl (rw z, inr refl)
count_pages_lem m i e t (suc n) h =
    let z : t + 1 + n ≡ t + suc n = omega arith in
    elim (Bool-cases (leb e t)) [
      | inl b ↦ rw b (inr (refl, ground arith))
      | inr b ↦
          rw (b, ==_ne (m i) page_used h)
            (elim (count_pages_lem m i e (t + 1) n h) [
              | inl (q, l) ↦ inl (q ∙ ap enough z, ground arith)
              | inr (q, l) ↦ inr (q, omega arith)
            ])
    ]

-- The search from `i` on takes the first free page if `n` pages fit below `e` from there.
FirstFree : (ℕ → ℕ) → ℕ → ℕ → ℕ → Found → Type 0
FirstFree m n e i not_found =
    (p : ℕ)
    → i ≤ p
    → p < e
    → ((q : ℕ) → i ≤ q → q < p → m q ≡ page_used)
    → m p ≢ page_used
    → e < p + n
FirstFree m n e i (at_page p t) =
    (i ≤ p)
    × (p < e)
    × (m p ≢ page_used)
    × (t ≡ p + n)
    × ((p + n ≤ e) ⊎ (n ≡ 0))
    × ((q : ℕ) → i ≤ q → q < p → m q ≡ page_used)
FirstFree m n e i out_of_fuel = ⊥

module _ (m : ℕ → ℕ) (n e align : ℕ) where
  FirstFree-suc :
      (i : ℕ) (r : Found)
      → i < e
      → m i ≡ page_used
      → FirstFree m n e (i + 1) r
      → FirstFree m n e i r
  unfolding FirstFree
  FirstFree-suc i not_found h u f = λ p l k all free. elim (ℕ_discrete i p) [
    | yes q ↦ absurd (free (ap m (sym q) ∙ u))
    | no q ↦ f p (omega arith) k (λ x a b. all x (omega arith) b) free
  ]
  FirstFree-suc i (at_page p t) h u (a, b, c, d, g, all) = (
    omega arith,
    b,
    c,
    d,
    g,
    λ q l k. elim (ℕ_discrete i q) [ yes z ↦ ap m (sym z) ∙ u | no z ↦ all q (omega arith) k ],
  )
  FirstFree-suc i out_of_fuel h u f = f

  find_loop-FirstFree :
      (fuel i : ℕ) → e < fuel + i → 0 < fuel → FirstFree m n e i (find_loop m n e align fuel i)
  unfolding find_loop
  find_loop-FirstFree zero i h k = absurd (omega arith)
  find_loop-FirstFree (suc fuel) i h k = elim (Bool-cases (leb e i)) [
    | inl b ↦ rw b (unfold FirstFree in λ p l c all free. absurd (ground arith))
    | inr b ↦ elim (Bool-cases (m i == page_used)) [
      | inl u ↦
          rw (b, u)
            (FirstFree-suc i _ (ground arith) ((==_iff (m i) page_used).0 u)
              (find_loop-FirstFree fuel (i + 1) (omega arith) (ground arith)))
      | inr u ↦
          let free : m i ≢ page_used = λ z. cc (sym u ∙ (==_iff (m i) page_used).1 z) in
          rw (b, u)
            (elim (count_pages_lem m i e i n free) [
              | inl (q, l) ↦ rw q (
                  unfold FirstFree in
                  (omega arith, ground arith, free, refl, l, λ x a c. absurd (omega arith)))
              | inr (q, l) ↦ rw q (
                  unfold FirstFree in
                  λ p a c all fr. elim (ℕ_discrete i p) [
                    | yes z ↦ omega arith
                    | no z ↦ absurd (free (all i (omega arith) (omega arith)))
                  ])
            ])
    ]
  ]

pub set_maps_lem :
    (m : ℕ → ℕ) (s n v q : ℕ) → set_maps m s n v q ≡ (if leb s q && ltb q (s + n) then v else m q)
unfolding set_maps
set_maps_lem m s zero v q = ground arith
set_maps_lem m s (suc n) v q =
    let e : s + 1 + n ≡ s + suc n = omega arith in
    set_maps_lem (λ p. if s == p then v else m p) (s + 1) n v q ∙ rw e (ground arith)

-- What a search for `n` pages below `e`, from page `i` on, makes of the allocator.
pub record Takes (b : Bootmm) (n i e p : ℕ) (r : Option ℕ × Bootmm) : Type 0 where
  pub page_range : (i ≤ p) × (p < e)
  pub was_free : b.s_map p ≢ page_used
  pub fits : (p + n ≤ e) ⊎ (n ≡ 0)
  pub first : (q : ℕ) → i ≤ q → q < p → b.s_map q ≡ page_used
  pub result : r.0 ≡ some (shl p 12)
  pub last : r.1.last_alloc_end ≡ p + n - 1
  pub marks : (q : ℕ) → r.1.s_map q ≡ (if leb p q && ltb q (p + n) then page_used else b.s_map q)
  pub same_info : r.1.info ≡ b.info

-- The search always ends. Either it takes the first free page from the aligned start on, if the pages
-- wanted fit below `e_pfn`, and marks these pages as used and no others; or no page is taken,
-- nothing changes, and that first free page is too near the end or does not exist. Whether the
-- pages behind the first are free makes no difference.
pub find_pages-Takes :
    (b : Bootmm) (n s e align : ℕ)
    → let i = upper_align s (unit_align align) in
      ((p : ℕ) × Takes b n i e p (find_pages b n s e align))
      ⊎ ((find_pages b n s e align ≡ (some 0, b))
          × ((p : ℕ)
              → i ≤ p
              → p < e
              → ((q : ℕ) → i ≤ q → q < p → b.s_map q ≡ page_used)
              → b.s_map p ≢ page_used
              → e < p + n))
unfolding find_pages
find_pages-Takes b n s e align =
    go (find_loop b.s_map n e (unit_align align) (suc e) i)
      (find_loop-FirstFree b.s_map n e (unit_align align) (suc e) i (omega arith) (omega arith))
  where
    i : ℕ
    i = upper_align s (unit_align align)

    go :
        (r : Found)
        → FirstFree b.s_map n e i r
        → ((p : ℕ) × Takes b n i e p (take_pages b n r))
          ⊎ ((take_pages b n r ≡ (some 0, b))
              × ((p : ℕ)
                  → i ≤ p
                  → p < e
                  → ((q : ℕ) → i ≤ q → q < p → b.s_map q ≡ page_used)
                  → b.s_map p ≢ page_used
                  → e < p + n))
    go not_found f = unfold take_pages FirstFree in inr (refl, f)
    go out_of_fuel f = unfold FirstFree in absurd f
    go (at_page p t) f =
        unfold take_pages FirstFree in
        inl (
          p,
          record {
            page_range = (f.0, f.1);
            was_free = f.2;
            fits = f.4;
            first = f.5;
            result = refl;
            last = omega (arith, f.3);
            marks = λ q. set_maps_lem b.s_map p n page_used q;
            same_info = refl;
          },
        )
