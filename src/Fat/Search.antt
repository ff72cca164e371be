-- ===== src/Fat/Search.antt =====
-- `fs_next_free`.
use os_final_program.Base.{
  ℕ, zero, suc, ◌+◌, ◌-◌, ◌≤◌, ◌<◌, ◌≡◌, refl, sym, ap, subst, ◌∙◌, ◌≢◌, ◌⊎◌, inl, inr, Option,
  none, some, arith, ◌==◌, ==_iff, Bool-cases,
}
use os_final_program.Fat.Disk.{Sectors}
use os_final_program.Fat.{
  FatInfo, FatCache, no_cluster, get_fat_entry_value, free_round, next_free_from, fs_next_free,
}
use os_final_program.Fat.Entries.{
  some_inj, Entry, InFat, FatWf, SameEntries, get_fat_entry_value-Entry,
}

module _ (d : Sectors) (g : FatInfo) where
  kept_twice :
      (a b c : FatCache d g) → SameEntries d g a b → SameEntries d g b c → SameEntries d g a c
  kept_twice a b c p q = record { wf = q.wf; keeps = λ e w i h. q.keeps e w i (p.keeps e w i h) }

  kept : (c : FatCache d g) → FatWf d g c → SameEntries d g c c
  kept c wf = record { wf = wf; keeps = λ e w i h. h }

  -- Of the `n` clusters from `start` on, `r` is the first with entry 0, or none of them has it.
  unfoldable pub FirstFree : (ℕ → ℕ) → ℕ → ℕ → ℕ → Type 0
  FirstFree entries start n r =
      ((start ≤ r)
        × (r < start + n)
        × (entries r ≡ 0)
        × ((k : ℕ) → start ≤ k → k < r → entries k ≢ 0))
      ⊎ ((r ≡ no_cluster) × ((k : ℕ) → start ≤ k → k < start + n → entries k ≢ 0))

  next_free_from-FirstFree :
      (entries : ℕ → ℕ) (n : ℕ) (c : FatCache d g) (start r : ℕ)
      → FatWf d g c
      → ((k : ℕ) → start ≤ k → k < start + n → InFat d g k × Entry d g c k (entries k))
      → (next_free_from d g n c start).0 ≡ some r
      → FirstFree entries start n r × SameEntries d g c (next_free_from d g n c start).1
  unfolding next_free_from free_round FirstFree
  next_free_from-FirstFree entries zero c start r wf h =
      λ ok. (inr (sym (some_inj ok), λ k l m. absurd (omega (arith, l, m))), kept c wf)
  next_free_from-FirstFree entries (suc n) c start r wf h =
      go (get_fat_entry_value d g c start)
        (λ v ok. get_fat_entry_value-Entry d g c start v (entries start) wf (here.0) (here.1) ok)
        (λ c' w. next_free_from-FirstFree entries n c' (start + 1) r w)
    where
      here : InFat d g start × Entry d g c start (entries start)
      here = h start (omega arith) (omega arith)

      with_start :
          (m : ℕ)
          → entries start ≢ 0
          → ((k : ℕ) → start + 1 ≤ k → k < m → entries k ≢ 0)
          → (k : ℕ) → start ≤ k
          → k < m
          → entries k ≢ 0
      with_start m u f k l b = elim (Bool-cases (start == k)) [
        | inl z ↦ subst (λ x. entries x ≢ 0) ((==_iff start k).0 z) u
        | inr z ↦ f k (ground (arith, z, l)) b
      ]

      extend :
          entries start ≢ 0 → FirstFree entries (start + 1) n r → FirstFree entries start (suc n) r
      extend u (inl (a, b, e, f)) = inl (omega (arith, a), omega (arith, b), e, with_start r u f)
      extend u (inr (e, f)) =
          inr (e, λ k l m. with_start (start + 1 + n) u f k l (omega (arith, m)))

      go :
          (q : Option ℕ × FatCache d g)
          → ((v : ℕ) → q.0 ≡ some v → (v ≡ entries start) × SameEntries d g c q.1)
          → ((c' : FatCache d g)
              → FatWf d g c'
              → ((k : ℕ)
                  → start + 1 ≤ k
                  → k < start + 1 + n
                  → InFat d g k × Entry d g c' k (entries k))
              → (next_free_from d g n c' (start + 1)).0 ≡ some r
              → FirstFree entries (start + 1) n r
                × SameEntries d g c' (next_free_from d g n c' (start + 1)).1)
          → (free_round d g start (λ c'. next_free_from d g n c' (start + 1)) q).0 ≡ some r
          → FirstFree entries start (suc n) r
            × SameEntries d g c
                (free_round d g start (λ c'. next_free_from d g n c' (start + 1)) q).1
      go (none, c') f rec = λ ok. cc
      go (some v, c') f rec = elim (Bool-cases (v == 0)) [
        | inl z ↦ rw z (λ ok.
            let same : start ≡ r = some_inj ok in
            let p : (v ≡ entries start) × SameEntries d g c c' = f v refl in
            (
              inl (
                omega (arith, same),
                omega (arith, same),
                ap entries (sym same) ∙ sym p.0 ∙ (==_iff v 0).0 z,
                λ k l m. absurd (omega (arith, same, l, m)),
              ),
              p.1,
            ))
        | inr z ↦ rw z (λ ok.
            let p : (v ≡ entries start) × SameEntries d g c c' = f v refl in
            let used : entries start ≢ 0 = λ e. cc (sym z ∙ (==_iff v 0).1 (p.0 ∙ e)) in
            let q =
              rec c' p.1.wf (λ k l m. later k p.1 (h k (omega (arith, l)) (omega (arith, m)))) ok in
            (extend used q.0, kept_twice c c' _ p.1 q.1))
      ]
        where
          later :
              (k : ℕ)
              → SameEntries d g c c'
              → InFat d g k × Entry d g c k (entries k)
              → InFat d g k × Entry d g c' k (entries k)
          later k s (i, e) = (i, s.keeps k (entries k) i e)

  -- For a coherent cache and clusters from `start` on whose entries are in the first table: a search that
  -- succeeds returns the first cluster from `start` up to the last one of the disk with entry 0,
  -- or 0xffffffff where no such cluster has it, and all entries stay.
  pub fs_next_free-FirstFree :
      (entries : ℕ → ℕ) (c : FatCache d g) (start r : ℕ)
      → FatWf d g c
      → ((k : ℕ)
          → start ≤ k
          → k < g.total_data_clusters + 2
          → InFat d g k × Entry d g c k (entries k))
      → (fs_next_free d g c start).0 ≡ some r
      → FirstFree entries start (g.total_data_clusters + 2 - start) r
        × SameEntries d g c (fs_next_free d g c start).1
  unfolding fs_next_free
  fs_next_free-FirstFree entries c start r wf h =
      next_free_from-FirstFree entries (g.total_data_clusters + 2 - start) c start r wf
        (λ k l m. h k l (omega (arith, l, m)))

  -- Behind the last cluster there is none.
  pub fs_next_free_behind :
      (c : FatCache d g) (start : ℕ)
      → g.total_data_clusters + 2 ≤ start
      → fs_next_free d g c start ≡ (some no_cluster, c)
  unfolding fs_next_free next_free_from
  fs_next_free_behind c start l =
      let no_rounds : g.total_data_clusters + 2 - start ≡ 0 = omega (arith, l) in rw no_rounds refl
