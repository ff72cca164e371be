-- ===== src/FsCache/Victim.antt =====
-- The clock algorithm: `fs_victim` ends with a buffer of the cache, changes nothing but reference bits,
-- and takes a dirty buffer only if all are dirty.
use native.Mathlib.Decide.{ℕ_discrete, dec_le}
use native.Mathlib.Nat.{mod-add-mod, mod-eq_of_lt, mod-eq-sub-mod}
use os_final_program.Base.{
  ℕ, zero, suc, ◌+◌, ◌-◌, ◌%◌, ◌<◌, ◌≡◌, refl, sym, subst, ◌∙◌, inl, inr, false, Option, none, some,
  arith, ◌==◌, ==_iff, Bool-cases,
}
use os_final_program.FsCache.{
  Buf, ref_bit, dirty_bit, clear_ref, update, advance, sweep_refs, sweep_dirty, second_sweep,
  first_sweep, fs_victim,
}

advance-lt : (size head : ℕ) → head < size → advance size head < size
advance-lt size head h = ground arith

advance-eq-mod : (size head : ℕ) → head < size → advance size head ≡ (head + 1) % size
advance-eq-mod size head h = elim (ℕ_discrete size (head + 1)) [
  | yes e ↦
      let z : (head + 1) % (head + 1) ≡ 0 =
        mod-eq-sub-mod {n = head + 1} {m = head + 1} (omega arith) ∙ omega arith in
      rw e (ground (arith, z))
  | no n ↦ ground (arith, mod-eq_of_lt {n = head + 1} {m = size} (omega arith))
]

-- Every index is met within `size` rounds.
round_to :
    (size from i : ℕ) → from < size → i < size → (k : ℕ) × (k < size) × ((from + k) % size ≡ i)
round_to size from i h l = elim (dec_le from i) [
  | yes p ↦
      (i - from, omega arith, let e : from + (i - from) ≡ i = omega arith in rw (e, mod-eq_of_lt l))
  | no p ↦ (
    i + size - from,
    omega arith,
    let e : from + (i + size - from) ≡ i + size = omega arith in
        let z : i + size - size ≡ i = omega arith in
        rw e (mod-eq-sub-mod {n = i + size} {m = size} (omega arith) ∙ rw (z, mod-eq_of_lt l)),
  )
]

module _ {B : Type 0} where
  -- Two arrays of buffers agree but for reference bits.
  pub record Agree (f g : ℕ → Buf B) : Type 0 where
    pub same_block : (i : ℕ) → (g i).block ≡ (f i).block
    pub same_cur : (i : ℕ) → (g i).cur ≡ (f i).cur
    pub same_dirty : (i : ℕ) → dirty_bit (g i).state ≡ dirty_bit (f i).state

  Agree-refl : (f : ℕ → Buf B) → Agree f f
  Agree-refl f = record { same_block = λ i. refl; same_cur = λ i. refl; same_dirty = λ i. refl }

  Agree-trans : {f g h : ℕ → Buf B} → Agree f g → Agree g h → Agree f h
  Agree-trans p q = record {
    same_block = λ i. q.same_block i ∙ p.same_block i;
    same_cur = λ i. q.same_cur i ∙ p.same_cur i;
    same_dirty = λ i. q.same_dirty i ∙ p.same_dirty i;
  }

  Agree-clear :
      (f : ℕ → Buf B) (h : ℕ)
      → Agree f (update f h (record (f h) { state = clear_ref (f h).state }))
  Agree-clear f h = record {
    same_block =
        λ i. elim (Bool-cases (h == i)) [ inl e ↦ rw (e, (==_iff h i).0 e) | inr n ↦ rw n ];
    same_cur = λ i. elim (Bool-cases (h == i)) [ inl e ↦ rw (e, (==_iff h i).0 e) | inr n ↦ rw n ];
    same_dirty = λ i. elim (Bool-cases (h == i)) [
      | inl e ↦ rw (e, (==_iff h i).0 e) (omega arith)
      | inr n ↦ rw n
    ];
  }

  -- What a sweep of `n` rounds from `head` says: it stops at a clean buffer of the cache, or it has
  -- seen that none of the `n` buffers is clean.
  SweepsRefs : ℕ → (ℕ → Buf B) → Option ℕ × (ℕ → Buf B) × ℕ → Type 0
  SweepsRefs size f (some i, g, head) =
      (i ≡ head) × (head < size) × (dirty_bit (f i).state ≡ 0) × Agree f g
  SweepsRefs size f (none, g, head) = (head < size) × Agree f g

  SweepsRefs-Agree :
      (size : ℕ) (f g : ℕ → Buf B) (r : Option ℕ × (ℕ → Buf B) × ℕ)
      → Agree f g
      → SweepsRefs size g r
      → SweepsRefs size f r
  unfolding SweepsRefs
  SweepsRefs-Agree size f g (some i, h, head) p (e, l, d, q) =
      (e, l, sym (p.same_dirty i) ∙ d, Agree-trans p q)
  SweepsRefs-Agree size f g (none, h, head) p (l, q) = (l, Agree-trans p q)

  sweep_refs-SweepsRefs :
      (size n : ℕ) (f : ℕ → Buf B) (head : ℕ)
      → head < size
      → SweepsRefs size f (sweep_refs size n f head)
  unfolding sweep_refs
  sweep_refs-SweepsRefs size zero f head h = unfold SweepsRefs in (h, Agree-refl f)
  sweep_refs-SweepsRefs size (suc n) f head h = elim (Bool-cases (ref_bit (f head).state == 0)) [
    | inl r ↦ elim (Bool-cases (dirty_bit (f head).state == 0)) [
      | inl t ↦ rw (r, t) (unfold SweepsRefs in (refl, h, (==_iff _ 0).0 t, Agree-refl f))
      | inr t ↦
          rw (r, t) (sweep_refs-SweepsRefs size n f (advance size head) (advance-lt size head h))
    ]
    | inr r ↦ rw r (
        SweepsRefs-Agree size f cleared _ (Agree-clear f head)
          (sweep_refs-SweepsRefs size n cleared (advance size head) (advance-lt size head h)))
  ]
    where
      cleared : ℕ → Buf B
      cleared = update f head (record (f head) { state = clear_ref (f head).state })

  SweepsDirty : ℕ → ℕ → ℕ → (ℕ → Buf B) → Option ℕ × ℕ → Type 0
  SweepsDirty size n from f (some i, head) =
      (i ≡ head) × (head < size) × (dirty_bit (f i).state ≡ 0)
  SweepsDirty size n from f (none, head) =
      (head ≡ (from + n) % size) × ((k : ℕ) → k < n → dirty_bit (f ((from + k) % size)).state ≡ 1)

  sweep_dirty-SweepsDirty :
      (size n : ℕ) (f : ℕ → Buf B) (head : ℕ)
      → head < size
      → SweepsDirty size n head f (sweep_dirty size n f head)
  unfolding sweep_dirty
  sweep_dirty-SweepsDirty size zero f head h =
      unfold SweepsDirty in
      (let e : head + 0 ≡ head = omega arith in rw (e, mod-eq_of_lt h), λ k l. absurd (omega arith))
  sweep_dirty-SweepsDirty size (suc n) f head h =
      elim (Bool-cases (dirty_bit (f head).state == 0)) [
        | inl t ↦ rw t (unfold SweepsDirty in (refl, h, (==_iff _ 0).0 t))
        | inr t ↦ rw t (
            later _ t
              (sweep_dirty-SweepsDirty size n f (advance size head) (advance-lt size head h)))
      ]
    where
      place : (k : ℕ) → (advance size head + k) % size ≡ (head + suc k) % size
      place k =
          let e : head + 1 + k ≡ head + suc k = omega arith in
          rw (advance-eq-mod size head h, mod-add-mod, e)

      seen :
          (dirty_bit (f head).state == 0) ≡ false
          → ((k : ℕ) → k < n → dirty_bit (f ((advance size head + k) % size)).state ≡ 1)
          → (k : ℕ) → k < suc n
          → dirty_bit (f ((head + k) % size)).state ≡ 1
      seen t all zero l =
          let e : head + 0 ≡ head = omega arith in rw (e, mod-eq_of_lt h) (ground arith)
      seen t all (suc k) l = rw (← place k) (all k (omega arith))

      later :
          (r : Option ℕ × ℕ)
          → (dirty_bit (f head).state == 0) ≡ false
          → SweepsDirty size n (advance size head) f r
          → SweepsDirty size (suc n) head f r
      later (some i, g) t o = unfold SweepsDirty in o
      later (none, g) t o = unfold SweepsDirty in (o.0 ∙ place n, seen t o.1)

  -- What the choice of a victim promises.
  pub record Victim (size : ℕ) (f : ℕ → Buf B) (r : ℕ × (ℕ → Buf B) × ℕ) : Type 0 where
    pub in_range : r.0 < size
    pub head_in_range : r.2 < size
    pub agree : Agree f r.1
    pub prefers_clean : dirty_bit (f r.0).state ≡ 1 → (i : ℕ) → i < size → dirty_bit (f i).state ≡ 1

  second_sweep-Victim :
      (size : ℕ) (f g : ℕ → Buf B) (from : ℕ) (r : Option ℕ × ℕ)
      → from < size
      → Agree f g
      → SweepsDirty size size from g r
      → Victim size f (second_sweep size g r)
  unfolding second_sweep SweepsDirty
  second_sweep-Victim size f g from (some i, head) h a o = record {
    in_range = rw o.0 o.1;
    head_in_range = advance-lt size head o.1;
    agree = a;
    prefers_clean = λ d. absurd (omega (arith, a.same_dirty i, o.2));
  }
  second_sweep-Victim size f g from (none, head) h a o = record {
    in_range = in_range;
    head_in_range = advance-lt size head in_range;
    agree = a;
    prefers_clean = λ d i l.
        let (k, lk, e) = round_to size from i h l in
        sym (a.same_dirty i) ∙ subst (λ j. dirty_bit (g j).state ≡ 1) e (o.1 k lk);
  }
    where
      in_range : head < size
      in_range = rw o.0 (omega arith)

  first_sweep-Victim :
      (size : ℕ) (f : ℕ → Buf B) (r : Option ℕ × (ℕ → Buf B) × ℕ)
      → SweepsRefs size f r
      → Victim size f (first_sweep size r)
  unfolding first_sweep SweepsRefs
  first_sweep-Victim size f (some i, g, head) (e, l, d, a) = record {
    in_range = rw e l;
    head_in_range = advance-lt size head l;
    agree = a;
    prefers_clean = λ one. absurd (omega (arith, d));
  }
  first_sweep-Victim size f (none, g, head) (l, a) =
      second_sweep-Victim size f g head _ l a (sweep_dirty-SweepsDirty size size g head l)

  -- With the clock head inside the cache, the victim and the new clock head are indices of the cache,
  -- no block, address or dirty bit changes, and the victim is dirty only if every buffer is.
  pub fs_victim-Victim :
      (f : ℕ → Buf B) (head size : ℕ) → head < size → Victim size f (fs_victim f head size)
  unfolding fs_victim
  fs_victim-Victim f head size h =
      first_sweep-Victim size f _ (sweep_refs-SweepsRefs size size f head h)
