-- ===== src/FsCache/Dirty.antt =====
-- A buffer that a client of the cache writes to and marks as dirty.
use os_final_program.Base.{
  ℕ, ◌<◌, ◌≡◌, refl, sym, ap, ◌∙◌, ◌≢◌, inl, inr, arith, ◌==◌, ==_iff, ==_refl, Bool-cases,
}
use os_final_program.FsCache.Disk.{Device}
use os_final_program.FsCache.{Buf, update}
use os_final_program.FsCache.Coherent.{Coherent, Shows}

module _ (d : Device) where
  open d use {St, B, Grid}

  module _ (size : ℕ) (bufs : ℕ → Buf B) (s : St) (k : ℕ) (b : B) where
    abbrev pub written : ℕ → Buf B
    written = update bufs k (record (bufs k) { state = 3; block = b })

    same_cur : (j : ℕ) → (written j).cur ≡ (bufs j).cur
    same_cur j = elim (Bool-cases (k == j)) [
      | inl z ↦ rw z (ap (λ i. (bufs i).cur) ((==_iff k j).0 z))
      | inr z ↦ rw z refl
    ]

    pub written-Coherent : Coherent d size bufs s → Coherent d size written s
    written-Coherent c = record {
      grid = λ j l. rw (same_cur j) (c.grid j l);
      distinct = λ i j l m. rw (same_cur i, same_cur j) (c.distinct i j l m);
      clean = λ j l. elim (Bool-cases (k == j)) [
        | inl z ↦ rw z (λ u n. absurd (omega (arith, n)))
        | inr z ↦ rw z (c.clean j l)
      ];
    }

    pub written-Shows :
        (a : ℕ) (x : B) → a ≢ (bufs k).cur → Shows d size bufs s a x → Shows d size written s a x
    unfolding Shows
    written-Shows a x n (inl (j, l, e, y)) = elim (Bool-cases (k == j)) [
      | inl z ↦ absurd (n (sym e ∙ ap (λ i. (bufs i).cur) (sym ((==_iff k j).0 z))))
      | inr z ↦ inl (j, l, rw z e, rw z y)
    ]
    written-Shows a x n (inr (out, r)) = inr (λ i l e. out i l (sym (same_cur i) ∙ e), r)

    pub written-Shows_here : k < size → Shows d size written s (bufs k).cur b
    unfolding Shows
    written-Shows_here l = inl (k, l, same_cur k, rw (==_refl k) refl)
