-- ===== src/Paging/Mapping.antt =====
-- `do_mapping`.
use os_final_program.Base.{
  ℕ, zero, suc, ◌+◌, ◌-◌, ◌*◌, ◌^◌, ◌≤◌, ◌<◌, ◌≡◌, refl, sym, ap, ◌∙◌, ◌≢◌, ◌⊎◌, inl, inr, false,
  ◌&&◌, arith, ltb, leb, ◌==◌, if◌then◌else◌, u32, shr, page_align_down,
}
use os_final_program.Paging.{Tables, do_mapping, next_mapping}
use os_final_program.Paging.Walk.{walk, NotShared-tables}
use os_final_program.Paging.OneMapping.{page_of, Wf, Maps, do_one_mapping-Maps}

-- The word for page `p`, of `n` pages from page `v` on that stand for the frames from `pa` on.
pub mapped_word : (v n pa attr p old : ℕ) → ℕ
mapped_word v n pa attr p old =
    if leb v p && ltb p (v + n) then (shr pa 12 + (p - v)) * 4096 + attr else old

no_pages : (v q x y : ℕ) → (if leb v q && ltb q (v + 0) then x else y) ≡ y
no_pages v q x y = ground arith

-- The next page of a range, if there is one.
next_page :
    (va n : ℕ) → va + suc n * 4096 ≤ 2 ^ 32 → (n ≡ 0) ⊎ (page_of (u32 (va + 4096)) ≡ page_of va + 1)
next_page va zero h = inl refl
next_page va (suc n) h = inr (omega (arith, h))

in_range : (va n : ℕ) → va + suc n * 4096 ≤ 2 ^ 32 → u32 (va + 4096) + n * 4096 ≤ 2 ^ 32
in_range va zero h = omega arith
in_range va (suc n) h = omega (arith, h)

joined_words :
    (v v' q q' n a p x : ℕ)
    → (n ≡ 0) ⊎ (v' ≡ v + 1)
    → (n ≡ 0) ⊎ (q' ≡ q + 1)
    → (if leb v' p && ltb p (v' + n)
        then (q' + (p - v')) * 4096 + a
        else if v == p
        then q * 4096 + a
        else x)
      ≡ (if leb v p && ltb p (v + suc n) then (q + (p - v)) * 4096 + a else x)
joined_words v v' q q' n a p x (inl e) f = ground (arith, e)
joined_words v v' q q' n a p x (inr e) (inl f) = ground (arith, f)
joined_words v v' q q' n a p x (inr e) (inr f) = ground (arith, e, f)

-- A page outside of a range is not the first one of it, and outside of the rest.
outside :
    (v v' n p : ℕ)
    → (n ≡ 0) ⊎ (v' ≡ v + 1)
    → (leb v p && ltb p (v + suc n)) ≡ false
    → ((v == p) ≡ false) × ((leb v' p && ltb p (v' + n)) ≡ false)
outside v v' n p (inl e) o = (ground (arith, e, o), ground (arith, e, o))
outside v v' n p (inr e) o = (ground (arith, e, o), ground (arith, e, o))

module _ (kmalloc : ℕ → ℕ) where
  -- What mapping `n` pages makes of the tables: `r` is the result of `do_mapping`.
  pub record MapsAll (t : Tables) (va n pa attr : ℕ) (t' : Tables) : Type 0 where
    pub wf : Wf kmalloc t'
    pub walks :
        (w : ℕ) → w < 2 ^ 32 → walk t' w ≡ mapped_word (page_of va) n pa attr (page_of w) (walk t w)

  pub record Fails (t : Tables) (va n : ℕ) (t' : Tables) : Type 0 where
    pub wf : Wf kmalloc t'
    pub walks :
        (w : ℕ)
        → w < 2 ^ 32
        → (leb (page_of va) (page_of w) && ltb (page_of w) (page_of va + n)) ≡ false
        → walk t' w ≡ walk t w
    pub call : ℕ
    pub of_these : (t.calls ≤ call) × (call < t.calls + n)
    pub no_memory : kmalloc call ≡ 0

  module _ (aligned : (n : ℕ) → page_align_down (kmalloc n) ≡ kmalloc n)
      (apart : (n m : ℕ) → kmalloc n ≢ 0 → kmalloc n ≡ kmalloc m → n ≡ m) where
    skip_call : (t : Tables) → Wf kmalloc t → Wf kmalloc (record t { calls = t.calls + 1 })
    skip_call t wf = record {
      not_shared = NotShared-tables t _ _ wf.not_shared;
      unused = λ n k l u. wf.unused n k (omega (arith, l)) u;
    }

    walk_calls : (t : Tables) (w : ℕ) → walk (record t { calls = t.calls + 1 }) w ≡ walk t w
    unfolding walk
    walk_calls t w = refl

    -- For a range of addresses and frames that does not pass 2^32, attributes below 4096, and tables of
    -- which none is shared or given out again by `kmalloc`, whose results are aligned and never the
    -- same: `do_mapping` returns 0 and then the word that is read for every page of the range is
    -- that of its frame with the attributes and is as before for all other pages, or it returns 1,
    -- which happens only when one of the calls of `kmalloc`, at most one for a page, returns 0, and
    -- then all pages outside of the range are as before. In both cases the tables remain such.
    pub do_mapping-MapsAll :
        (n : ℕ) (t : Tables) (va pa attr : ℕ)
        → Wf kmalloc t
        → va + n * 4096 ≤ 2 ^ 32
        → pa + n * 4096 ≤ 2 ^ 32
        → attr < 4096
        → ((t' : Tables) × (do_mapping kmalloc t va n pa attr ≡ (0, t'))
            × MapsAll t va n pa attr t')
          ⊎ ((t' : Tables) × (do_mapping kmalloc t va n pa attr ≡ (1, t')) × Fails t va n t')
    unfolding do_mapping mapped_word next_mapping
    do_mapping-MapsAll zero t va pa attr wf v p h = inl (
      t,
      refl,
      record { wf = wf; walks = λ w l. sym (no_pages (page_of va) (page_of w) _ (walk t w)) },
    )
    do_mapping-MapsAll (suc n) t va pa attr wf v p h =
        elim (do_one_mapping-Maps kmalloc aligned apart t va pa attr wf (omega (arith, v)) h) [
          | inr (e, z) ↦ inr (
            _,
            rw e refl,
            record {
              wf = skip_call t wf;
              walks = λ w l o. walk_calls t w;
              call = t.calls;
              of_these = (omega arith, omega arith);
              no_memory = z;
            },
          )
          | inl (t', e, m) ↦ rw e (
              rest t' m (
                do_mapping-MapsAll n t' (u32 (va + 4096)) (u32 (pa + 4096)) attr m.wf
                  (in_range va n v) (in_range pa n p) h))
        ]
      where
        rest :
            (t' : Tables)
            → Maps kmalloc t va pa attr t'
            → ((u : Tables) × (do_mapping kmalloc t' (u32 (va + 4096)) n (u32 (pa + 4096)) attr
                  ≡ (0, u))
                × MapsAll t' (u32 (va + 4096)) n (u32 (pa + 4096)) attr u)
              ⊎ ((u : Tables) × (do_mapping kmalloc t' (u32 (va + 4096)) n (u32 (pa + 4096)) attr
                    ≡ (1, u))
                  × Fails t' (u32 (va + 4096)) n u)
            → ((u : Tables) × (do_mapping kmalloc t' (u32 (va + 4096)) n (u32 (pa + 4096)) attr
                  ≡ (0, u))
                × MapsAll t va (suc n) pa attr u)
              ⊎ ((u : Tables) × (do_mapping kmalloc t' (u32 (va + 4096)) n (u32 (pa + 4096)) attr
                    ≡ (1, u))
                  × Fails t va (suc n) u)
        rest t' m (inl (u, e, a)) = inl (
          u,
          e,
          record {
            wf = a.wf;
            walks = λ w l.
                a.walks w l
                ∙ ap
                    (λ x.
                      mapped_word (page_of (u32 (va + 4096))) n (u32 (pa + 4096)) attr (page_of w)
                        x)
                    (m.walks w l)
                ∙ joined_words (page_of va) _ (shr pa 12) _ n attr (page_of w) (walk t w)
                    (next_page va n v) (next_page pa n p);
          },
        )
        rest t' m (inr (u, e, a)) = inr (
          u,
          e,
          record {
            wf = a.wf;
            walks = λ w l o.
                let q = outside (page_of va) _ n (page_of w) (next_page va n v) o in
                a.walks w l q.1 ∙ m.walks w l ∙ rw q.0 refl;
            call = a.call;
            of_these =
                (omega (arith, a.of_these.0, m.calls.0), omega (arith, a.of_these.1, m.calls.1));
            no_memory = a.no_memory;
          },
        )
