-- ===== src/VfsCache/Lists.antt =====
-- Lists of entries without duplicates.
use os_final_program.Base.{
  ℕ, ◌+◌, ◌≤◌, ◌≡◌, refl, sym, ap, ◌∙◌, inl, inr, Bool, true, false, not, ◌&&◌, some, List, [], ◌∷◌,
  ◌++◌, arith, ◌==◌, ==_iff, ==_refl, Bool-cases, length, contains,
}
use os_final_program.Pc.Queues.{unlink}
use os_final_program.Pc.QueueLaws.{contains-unlink}
use os_final_program.VfsCache.{find_entry, last_entry}

-- No entry twice.
unfoldable pub distinct : List ℕ → Bool
distinct [] = true
distinct (t ∷ ts) = not (contains ts t) && distinct ts

pub unlink-none : (t : ℕ) (ts : List ℕ) → contains ts t ≡ false → unlink t ts ≡ ts
unfolding unlink
unlink-none t [] h = refl
unlink-none t (x ∷ xs) h = elim (Bool-cases (x == t)) [
  | inl e ↦ absurd (ground (arith, e, h))
  | inr e ↦ rw (e, unlink-none t xs (ground (arith, e, h)))
]

pub distinct-unlink : (t : ℕ) (ts : List ℕ) → distinct ts ≡ true → distinct (unlink t ts) ≡ true
unfolding distinct unlink
distinct-unlink t [] h = refl
distinct-unlink t (x ∷ xs) h = elim (Bool-cases (x == t)) [
  | inl e ↦ rw e (distinct-unlink t xs (ground (arith, h)))
  | inr e ↦ rw (e, contains-unlink t x xs) (ground (arith, h, distinct-unlink t xs))
]

pub length-unlink :
    (t : ℕ) (ts : List ℕ)
    → distinct ts ≡ true
    → contains ts t ≡ true
    → length (unlink t ts) + 1 ≡ length ts
unfolding distinct unlink
length-unlink t [] d h = cc
length-unlink t (x ∷ xs) d h = elim (Bool-cases (x == t)) [
  | inl e ↦ rw (e, unlink-none t xs (ground (arith, (==_iff x t).0 e, d))) (omega arith)
  | inr e ↦ rw e (omega (arith, length-unlink t xs (ground (arith, d)) (ground (arith, e, h))))
]

pub find_entry-finds :
    (test : ℕ → Bool) (ts : List ℕ) (t : ℕ)
    → contains ts t ≡ true
    → test t ≡ true
    → (u : ℕ) × (find_entry test ts ≡ some u) × (test u ≡ true) × (contains ts u ≡ true)
unfolding find_entry
find_entry-finds test [] t h e = cc
find_entry-finds test (x ∷ xs) t h e = elim (Bool-cases (test x)) [
  | inl z ↦ (x, rw z, z, ground arith)
  | inr z ↦ let r = find_entry-finds test xs t (later z) e in (r.0, rw z r.1, r.2, ground arith)
]
  where
    later : test x ≡ false → contains xs t ≡ true
    later z = elim (Bool-cases (x == t)) [
      | inr w ↦ rw w at h
      | inl w ↦ absurd (cc (sym z ∙ ap test ((==_iff x t).0 w) ∙ e))
    ]

-- The last of the entries, and the list without it.
pub last_entry-unlink :
    (t : ℕ) (ts : List ℕ)
    → distinct (t ∷ ts) ≡ true
    → (u : ℕ) × (us : List ℕ) × (last_entry (t ∷ ts) ≡ some u)
      × (t ∷ ts ≡ us ++ (u ∷ []))
      × (contains (t ∷ ts) u ≡ true)
      × (unlink u (t ∷ ts) ≡ us)
unfolding last_entry unlink distinct
last_entry-unlink t [] d = (t, [], refl, refl, rw (==_refl t), rw (==_refl t))
last_entry-unlink t (x ∷ ts) d =
    let r = last_entry-unlink x ts (ground (arith, d)) in
    (
      r.0,
      t ∷ r.1,
      r.2,
      ap (λ k. t ∷ k) r.3,
      ground (arith, r.4),
      rw (apart r.0 r.4) (ap (λ k. t ∷ k) r.5),
    )
  where
    apart : (u : ℕ) → contains (x ∷ ts) u ≡ true → (t == u) ≡ false
    apart u h = elim (Bool-cases (t == u)) [
      | inr n ↦ n
      | inl e ↦ absurd (cc (sym h ∙ ap (contains (x ∷ ts)) (sym ((==_iff t u).0 e)) ∙ fresh))
    ]
      where
        fresh : contains (x ∷ ts) t ≡ false
        fresh = ground (arith, d)

pub last_of_some :
    (ts : List ℕ)
    → 1 ≤ length ts
    → distinct ts ≡ true
    → (u : ℕ) × (us : List ℕ) × (last_entry ts ≡ some u)
      × (ts ≡ us ++ (u ∷ []))
      × (contains ts u ≡ true)
      × (unlink u ts ≡ us)
last_of_some [] l d = absurd (omega arith)
last_of_some (t ∷ ts) l d = last_entry-unlink t ts d
