-- ===== src/Paging/OneMapping.antt =====
-- `do_one_mapping`.
use os_final_program.Base.{
  ℕ, ◌+◌, ◌^◌, ◌≤◌, ◌<◌, ◌≡◌, refl, sym, ap, ◌∙◌, ◌≢◌, ◌⊎◌, inl, inr, arith, ◌==◌, if◌then◌else◌,
  ==_iff, Bool-cases, shr, page_align_down,
}
use os_final_program.Buddy.{put_at}
use os_final_program.Paging.{Tables, pde_index, pte_index, write_entry, new_table, do_one_mapping}
use os_final_program.Paging.Walk.{
  table_of, entry, walk, NotShared, table_here, table_elsewhere, put_at_self, entry-used,
  entry-none, entry-tables, NotShared-tables, shared, write_entry-entry, write_entry-NotShared,
}

abbrev pub page_of : ℕ → ℕ
page_of w = shr w 12

one_index :
    (va w x old : ℕ)
    → va < 2 ^ 32
    → w < 2 ^ 32
    → (if pde_index va == pde_index w
        then (if pte_index va == pte_index w then x else old)
        else old)
      ≡ (if page_of va == page_of w then x else old)
one_index va w x old h g = ground (arith, h, g)

module _ (kmalloc : ℕ → ℕ) where
  -- No second table is shared, and none of them is given out again.
  pub record Wf (t : Tables) : Type 0 where
    pub not_shared : NotShared t
    pub unused : (n k : ℕ) → t.calls ≤ n → kmalloc n ≢ 0 → table_of t k ≢ kmalloc n

  pub record Maps (t : Tables) (va pa attr : ℕ) (t' : Tables) : Type 0 where
    pub wf : Wf t'
    pub calls : (t.calls ≤ t'.calls) × (t'.calls ≤ t.calls + 1)
    pub walks :
        (w : ℕ)
        → w < 2 ^ 32
        → walk t' w ≡ (if page_of va == page_of w then page_align_down pa + attr else walk t w)

  le_refl : (n : ℕ) → n ≤ n
  le_refl n = omega arith

  module _ (t t0 : Tables) (pde old va pa attr : ℕ) (h : attr < 4096)
      (lead : page_align_down old ≡ pde) (used : pde ≢ 0)
      (own : (k : ℕ) → pde_index va ≢ k → table_of t0 k ≢ pde) where
    abbrev after : Tables
    after = write_entry t0 pde old va pa attr

    after-table :
        (k : ℕ)
        → ((pde_index va ≡ k) × (table_of after k ≡ pde)) ⊎ (table_of after k ≡ table_of t0 k)
    after-table k = elim (Bool-cases (pde_index va == k)) [
      | inl z ↦ inl (
        (==_iff _ k).0 z,
        ap (table_of after) (sym ((==_iff _ k).0 z)) ∙ table_here t0 pde old va pa attr h lead,
      )
      | inr z ↦
          inr (table_elsewhere t0 pde old va pa attr h lead k (λ e. cc (sym z ∙ (==_iff _ k).1 e)))
    ]

    written-Maps :
        va < 2 ^ 32
        → ((l : ℕ) → t0.tables pde l ≡ entry t (pde_index va) l)
        → ((k l : ℕ) → pde_index va ≢ k → entry t0 k l ≡ entry t k l)
        → (t.calls ≤ t0.calls) × (t0.calls ≤ t.calls + 1)
        → NotShared t0
        → ((n k : ℕ) → t0.calls ≤ n → kmalloc n ≢ 0 → table_of t0 k ≢ kmalloc n)
        → ((n : ℕ) → t0.calls ≤ n → kmalloc n ≢ 0 → pde ≢ kmalloc n)
        → Maps t va pa attr after
    unfolding walk write_entry
    written-Maps v here rest c ns un mine = record {
      wf = record {
        not_shared = write_entry-NotShared t0 pde old va pa attr h lead used own ns;
        unused = λ n k l u. elim (after-table k) [
          | inl (e, p) ↦ λ q. mine n l u (sym p ∙ q)
          | inr p ↦ λ q. un n k l u (sym p ∙ q)
        ];
      };
      calls = c;
      walks = λ w l.
          write_entry-entry t0 pde old va pa attr h lead used own (pde_index w) (pte_index w)
          ∙ old_words (pde_index w) (pte_index w)
          ∙ one_index va w _ _ v l;
    }
      where
        old_words :
            (k l : ℕ)
            → (if pde_index va == k
                then (if pte_index va == l then page_align_down pa + attr else t0.tables pde l)
                else entry t0 k l)
              ≡ (if pde_index va == k
                  then (if pte_index va == l then page_align_down pa + attr else entry t k l)
                  else entry t k l)
        old_words k l = elim (Bool-cases (pde_index va == k)) [
          | inl z ↦ rw (z, here l ∙ ap (λ m. entry t m l) ((==_iff _ k).0 z))
          | inr z ↦ rw (z, rest k l (λ e. cc (sym z ∙ (==_iff _ k).1 e)))
        ]

  module _ (aligned : (n : ℕ) → page_align_down (kmalloc n) ≡ kmalloc n)
      (apart : (n m : ℕ) → kmalloc n ≢ 0 → kmalloc n ≡ kmalloc m → n ≡ m) where
    -- The second table is there.
    known-Maps :
        (t : Tables) (va pa attr : ℕ)
        → Wf t
        → va < 2 ^ 32
        → attr < 4096
        → table_of t (pde_index va) ≢ 0
        → Maps t va pa attr
            (write_entry t (table_of t (pde_index va)) (t.pgd (pde_index va)) va pa attr)
    known-Maps t va pa attr wf v h u =
        written-Maps t t _ (t.pgd (pde_index va)) va pa attr h refl u (λ k n e. n (sym (same k e)))
          v (λ l. sym (entry-used t _ l u)) (λ k l n. refl) (le_refl t.calls, omega arith)
          wf.not_shared wf.unused (λ n. wf.unused n (pde_index va))
      where
        same : (k : ℕ) → table_of t k ≡ table_of t (pde_index va) → k ≡ pde_index va
        same k e = shared t wf.not_shared k (pde_index va) (λ z. u (sym e ∙ z)) e

    fresh-Maps :
        (t : Tables) (va pa attr : ℕ)
        → Wf t
        → va < 2 ^ 32
        → attr < 4096
        → table_of t (pde_index va) ≡ 0
        → kmalloc t.calls ≢ 0
        → Maps t va pa attr (
            write_entry
              (record t {
                calls = t.calls + 1;
                tables = put_at t.tables (kmalloc t.calls) (λ j. 0);
              })
              (kmalloc t.calls)
              (kmalloc t.calls)
              va
              pa
              attr)
    fresh-Maps t va pa attr wf v h z u =
        written-Maps t cleared (kmalloc t.calls) (kmalloc t.calls) va pa attr h (aligned t.calls) u
          (λ k n. wf.unused t.calls k (le_refl t.calls) u) v
          (λ l.
            ap (λ f. f l) (put_at_self t.tables (kmalloc t.calls) (λ j. 0))
            ∙ sym (entry-none t _ l z))
          (λ k l n. entry-tables t _ _ k l (wf.unused t.calls k (le_refl t.calls) u))
          (omega arith, le_refl _) (NotShared-tables t _ _ wf.not_shared)
          (λ n k l. wf.unused n k (omega (arith, l)))
          (λ n l o e. omega (arith, l, apart t.calls n u e))
      where
        cleared : Tables
        cleared = record t {
          calls = t.calls + 1;
          tables = put_at t.tables (kmalloc t.calls) (λ j. 0);
        }

    pub do_one_mapping-Maps :
        (t : Tables) (va pa attr : ℕ)
        → Wf t
        → va < 2 ^ 32
        → attr < 4096
        → ((t' : Tables) × (do_one_mapping kmalloc t va pa attr ≡ (0, t')) × Maps t va pa attr t')
          ⊎ ((do_one_mapping kmalloc t va pa attr ≡ (1, record t { calls = t.calls + 1 }))
              × (kmalloc t.calls ≡ 0))
    unfolding do_one_mapping new_table
    do_one_mapping-Maps t va pa attr wf v h = elim (Bool-cases (table_of t (pde_index va) == 0)) [
      | inr z ↦
          inl (_, rw z refl, known-Maps t va pa attr wf v h (λ e. cc (sym z ∙ (==_iff _ _).1 e)))
      | inl z ↦ elim (Bool-cases (kmalloc t.calls == 0)) [
        | inl y ↦ inr (rw (z, y) refl, (==_iff _ _).0 y)
        | inr y ↦ inl (
          _,
          rw (z, y) refl,
          fresh-Maps t va pa attr wf v h ((==_iff _ _).0 z) (λ e. cc (sym y ∙ (==_iff _ _).1 e)),
        )
      ]
    ]
