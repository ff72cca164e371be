-- ===== src/Paging/Walk.antt =====
-- What the hardware reads from the tables, and how a write changes it.
use os_final_program.Base.{
  ℕ, ◌+◌, ◌/◌, ◌<◌, bit_or, ◌≡◌, refl, sym, ap, ◌∙◌, ◌≢◌, inl, inr, arith, ◌==◌, if◌then◌else◌,
  ==_iff, ==_refl, ==_ne, Bool-cases, page_align_down, bit_or-disjoint,
}
use os_final_program.Buddy.{put_at}
use os_final_program.Paging.{Tables, pde_index, pte_index, write_entry}

abbrev pub table_of : Tables → ℕ → ℕ
table_of t i = page_align_down (t.pgd i)

-- The word for page `j` of region `i`, 0 where there is no second table.
pub entry : Tables → ℕ → ℕ → ℕ
entry t i j = if table_of t i == 0 then 0 else t.tables (table_of t i) j

-- The word for the page of an address: that of its page frame with the attributes.
unfoldable pub walk : Tables → ℕ → ℕ
unfolding entry
walk t va = entry t (pde_index va) (pte_index va)

-- Second tables are shared by no two regions.
unfoldable pub NotShared : Tables → Type 0
NotShared t = (i j : ℕ) → table_of t i ≢ 0 → table_of t i ≡ table_of t j → i ≡ j

-- The frame of a page with attributes below 4096.
pub with_attr :
    (pa attr : ℕ) → attr < 4096 → bit_or (page_align_down pa) attr ≡ page_align_down pa + attr
with_attr pa attr h = bit_or-disjoint 12 (pa / 4096) attr h

pub aligned_with :
    (pa attr : ℕ) → attr < 4096 → page_align_down (page_align_down pa + attr) ≡ page_align_down pa
aligned_with pa attr h = omega (arith, h)

pub put_at_self : {A : Type 0} (f : ℕ → A) (i : ℕ) (v : A) → put_at f i v i ≡ v
put_at_self f i v = rw (==_refl i) refl

put_at_other : {A : Type 0} (f : ℕ → A) (i j : ℕ) (v : A) → i ≢ j → put_at f i v j ≡ f j
put_at_other f i j v n = rw (==_ne i j n) refl

pub shared :
    (t : Tables) → NotShared t → (k l : ℕ) → table_of t k ≢ 0 → table_of t k ≡ table_of t l → k ≡ l
unfolding NotShared
shared t ns = ns

pub entry-used : (t : Tables) (k l : ℕ) → table_of t k ≢ 0 → entry t k l ≡ t.tables (table_of t k) l
unfolding entry
entry-used t k l u = rw (==_ne (table_of t k) 0 u) refl

pub entry-none : (t : Tables) (k l : ℕ) → table_of t k ≡ 0 → entry t k l ≡ 0
unfolding entry
entry-none t k l z = rw z refl

-- Another table changes no entry.
pub entry-tables :
    (t : Tables) (c : ℕ) (p : ℕ) (k l : ℕ)
    → table_of t k ≢ p
    → entry (record t { calls = c; tables = put_at t.tables p (λ j. 0) }) k l ≡ entry t k l
unfolding entry
entry-tables t c p k l n = rw (==_ne p (table_of t k) (λ e. n (sym e))) refl

pub NotShared-tables :
    (t : Tables) (c : ℕ) (f : ℕ → ℕ → ℕ)
    → NotShared t
    → NotShared (record t { calls = c; tables = f })
unfolding NotShared
NotShared-tables t c f ns = ns

module _ (t : Tables) (pde old va pa attr : ℕ) (h : attr < 4096)
    (lead : page_align_down old ≡ pde) where
  abbrev pub i : ℕ
  i = pde_index va

  abbrev pub j : ℕ
  j = pte_index va

  abbrev pub after : Tables
  after = write_entry t pde old va pa attr

  pub table_here : table_of after i ≡ pde
  unfolding write_entry
  table_here =
      ap page_align_down (put_at_self t.pgd (pde_index va) _ ∙ with_attr old attr h)
      ∙ aligned_with old attr h
      ∙ lead

  pub table_elsewhere : (k : ℕ) → i ≢ k → table_of after k ≡ table_of t k
  unfolding write_entry
  table_elsewhere k n = ap page_align_down (put_at_other t.pgd (pde_index va) k _ n)

  module _ (used : pde ≢ 0) (own : (k : ℕ) → i ≢ k → table_of t k ≢ pde) where
    row :
        (l : ℕ)
        → after.tables pde l ≡ (if j == l then page_align_down pa + attr else t.tables pde l)
    unfolding write_entry
    row l = elim (Bool-cases (pte_index va == l)) [
      | inl z ↦ rw (==_refl pde, z) (with_attr pa attr h)
      | inr z ↦ rw (==_refl pde, z) refl
    ]

    entry_here :
        (l : ℕ) → entry after i l ≡ (if j == l then page_align_down pa + attr else t.tables pde l)
    unfolding entry
    entry_here l = rw (table_here, ==_ne pde 0 used) (row l)

    tables_elsewhere : (k : ℕ) → i ≢ k → after.tables (table_of t k) ≡ t.tables (table_of t k)
    unfolding write_entry
    tables_elsewhere k n = put_at_other t.tables pde (table_of t k) _ (λ e. own k n (sym e))

    entry_elsewhere : (k l : ℕ) → i ≢ k → entry after k l ≡ entry t k l
    unfolding entry
    entry_elsewhere k l n = rw (table_elsewhere k n, tables_elsewhere k n) refl

    -- The word of the address is written, and no other.
    pub write_entry-entry :
        (k l : ℕ)
        → entry after k l ≡ (
            if i == k
            then (if j == l then page_align_down pa + attr else t.tables pde l)
            else entry t k l)
    write_entry-entry k l = elim (Bool-cases (i == k)) [
      | inl z ↦ rw z (ap (λ m. entry after m l) (sym ((==_iff i k).0 z)) ∙ entry_here l)
      | inr z ↦ rw z (entry_elsewhere k l (λ e. cc (sym z ∙ (==_iff i k).1 e)))
    ]

    pub write_entry-NotShared : NotShared t → NotShared after
    unfolding NotShared
    write_entry-NotShared ns k l u e = elim (Bool-cases (i == k)) [
      | inl z ↦ elim (Bool-cases (i == l)) [
        | inl y ↦ sym ((==_iff i k).0 z) ∙ (==_iff i l).0 y
        | inr y ↦
            let n : i ≢ l = λ e. cc (sym y ∙ (==_iff i l).1 e) in
            absurd (
              own l n (
                sym (table_elsewhere l n)
                ∙ sym e
                ∙ ap (table_of after) (sym ((==_iff i k).0 z))
                ∙ table_here))
      ]
      | inr z ↦
          let m : i ≢ k = λ e. cc (sym z ∙ (==_iff i k).1 e) in
          elim (Bool-cases (i == l)) [
            | inl y ↦ absurd (
                own k m (
                  sym (table_elsewhere k m)
                  ∙ e
                  ∙ ap (table_of after) (sym ((==_iff i l).0 y))
                  ∙ table_here))
            | inr y ↦
                let n : i ≢ l = λ e. cc (sym y ∙ (==_iff i l).1 e) in
                ns k l (λ o. u (table_elsewhere k m ∙ o))
                  (sym (table_elsewhere k m) ∙ e ∙ table_elsewhere l n)
          ]
    ]
