-- ===== src/Bootmm/Alloc.antt =====
-- `bootmm_alloc_pages`: it returns, and what it returns starts at a page that was free.
use os_final_program.Base.{
  ℕ, ◌+◌, ◌/◌, ◌<◌, ◌≡◌, refl, ◌≢◌, inl, inr, Option, none, some, arith, Bool-cases, u32, shl,
  page_align_up,
}
use os_final_program.Bootmm.{
  Bootmm, page_used, find_pages, is_address, record_pages, search_front, bootmm_alloc_pages,
}
use os_final_program.Bootmm.Find.{Takes, find_pages-Takes}

-- The call returns an address, and one that is not 0 is that of a page which was free and is now
-- marked, if at least one page was wanted.
pub record Allocates (b : Bootmm) (n : ℕ) (r : Option ℕ × Bootmm) : Type 0 where
  pub address : ℕ
  pub returned : r.0 ≡ some address
  pub page :
      address ≢ 0
      → (p : ℕ) × (address ≡ shl p 12) × (b.s_map p ≢ page_used) × (0 < n → r.1.s_map p ≡ page_used)
  pub only_marks : (q : ℕ) → b.s_map q ≡ page_used → r.1.s_map q ≡ page_used

Takes-Allocates :
    (b : Bootmm) (n i e p : ℕ) (r : Option ℕ × Bootmm) → Takes b n i e p r → Allocates b n r
Takes-Allocates b n i e p r t = record {
  address = shl p 12;
  returned = t.result;
  page = λ u. (p, refl, t.was_free, λ z. ground (arith, t.marks p));
  only_marks = λ q u. ground (arith, t.marks q);
}

find_pages-Allocates : (b : Bootmm) (n s e align : ℕ) → Allocates b n (find_pages b n s e align)
find_pages-Allocates b n s e align = elim (find_pages-Takes b n s e align) [
  | inl (p, t) ↦ Takes-Allocates b n _ e p _ t
  | inr (q, f) ↦
      rw q (record {
        address = 0;
        returned = refl;
        page = λ u. absurd (u refl);
        only_marks = λ q u. u;
      })
]

record_pages-Allocates :
    (b : Bootmm) (n size type : ℕ) (r : Option ℕ × Bootmm)
    → Allocates b n r
    → Allocates b n (record_pages size type r)
unfolding record_pages
record_pages-Allocates b n size type (none, c) a = absurd (ground (arith, a.returned))
record_pages-Allocates b n size type (some x, c) a = record {
  address = a.address;
  returned = a.returned;
  page = a.page;
  only_marks = a.only_marks;
}

-- An earlier search that may have marked pages comes first.
after_marks :
    (b c : Bootmm) (n : ℕ) (r : Option ℕ × Bootmm)
    → ((q : ℕ) → b.s_map q ≡ page_used → c.s_map q ≡ page_used)
    → Allocates c n r
    → Allocates b n r
after_marks b c n r keep a = record {
  address = a.address;
  returned = a.returned;
  page = λ u. let (p, e, f, m) = a.page u in (p, e, λ z. f (keep p z), m);
  only_marks = λ q u. a.only_marks q (keep q u);
}

-- `bootmm_alloc_pages` always returns. An address other than 0 is that of a page which was free and, if
-- at least one page was wanted, is marked afterwards; no marked page is ever unmarked.
pub bootmm_alloc_pages-Allocates :
    (b : Bootmm) (size type align : ℕ)
    → Allocates b (page_align_up size / 4096) (bootmm_alloc_pages b size type align)
unfolding bootmm_alloc_pages search_front
bootmm_alloc_pages-Allocates b size0 type align = elim (Bool-cases (is_address r.0)) [
  | inl t ↦ rw t (record_pages-Allocates b n size type r first)
  | inr t ↦ rw t (elim (Bool-cases (is_address r'.0)) [
    | inl u ↦ rw u (
        after_marks b r.1 n _ first.only_marks (
          record_pages-Allocates r.1 n size type r'
            (find_pages-Allocates r.1 n 0 r.1.last_alloc_end (align / 4096))))
    | inr u ↦ rw u (
        after_marks b r.1 n _ first.only_marks
          (find_pages-Allocates r.1 n 0 r.1.last_alloc_end (align / 4096)))
  ])
]
  where
    size : ℕ
    size = page_align_up size0

    n : ℕ
    n = size / 4096

    r : Option ℕ × Bootmm
    r = find_pages b n (u32 (b.last_alloc_end + 1)) b.max_pfn (align / 4096)

    r' : Option ℕ × Bootmm
    r' = find_pages r.1 n 0 r.1.last_alloc_end (align / 4096)

    first : Allocates b n r
    first = find_pages-Allocates b n (u32 (b.last_alloc_end + 1)) b.max_pfn (align / 4096)
