-- ===== src/FsCache/Coherent.antt =====
-- What a cache shows of the disk, and how a buffer is emptied for another block.
use os_final_program.Base.{
  ℕ, ◌<◌, ◌≡◌, refl, sym, ap, subst, ◌∙◌, ◌≢◌, ◌⊎◌, inl, inr, Bool, true, false, ◌==◌, ==_iff,
  Bool-cases,
}
use os_final_program.FsCache.Disk.{Device}
use os_final_program.FsCache.{Buf, no_block, dirty_bit, update, write_back, fs_write}
use os_final_program.FsCache.Victim.{Agree}

module _ (d : Device) where
  open d use {St, B, Grid, read, write, read-write, read-write_ne}

  -- Every buffer in use is at an address of the grid and is the only one there, and one that is not
  -- dirty holds what the disk holds.
  pub record Coherent (size : ℕ) (bufs : ℕ → Buf B) (s : St) : Type 0 where
    pub grid : (i : ℕ) → i < size → (bufs i).cur ≢ no_block → Grid (bufs i).cur
    pub distinct :
        (i j : ℕ)
        → i < size
        → j < size
        → (bufs i).cur ≢ no_block
        → (bufs i).cur ≡ (bufs j).cur
        → i ≡ j
    pub clean :
        (i : ℕ)
        → i < size
        → (bufs i).cur ≢ no_block
        → dirty_bit (bufs i).state ≡ 0
        → (b : B) → read s (bufs i).cur b ≡ (true, (bufs i).block)

  -- The contents of the block at `a`, to a client of the cache: those of its buffer, or of the disk.
  unfoldable pub Shows : ℕ → (ℕ → Buf B) → St → ℕ → B → Type 0
  Shows size bufs s a x =
      ((i : ℕ) × (i < size) × ((bufs i).cur ≡ a) × ((bufs i).block ≡ x))
      ⊎ (((i : ℕ) → i < size → (bufs i).cur ≢ a) × ((b : B) → read s a b ≡ (true, x)))

  -- Reference bits are no part of what a cache shows.
  pub Agree-Coherent :
      {size : ℕ} {f g : ℕ → Buf B} {s : St} → Agree f g → Coherent size f s → Coherent size g s
  Agree-Coherent {size} {f} {g} {s} p c = record {
    grid = λ i l. rw (p.same_cur i) (c.grid i l);
    distinct = λ i j l m. rw (p.same_cur i, p.same_cur j) (c.distinct i j l m);
    clean = λ i l. rw (p.same_cur i, p.same_dirty i, p.same_block i) (c.clean i l);
  }

  pub Agree-Shows :
      (size : ℕ) {f g : ℕ → Buf B} (s : St) (a : ℕ) (x : B)
      → Agree f g
      → Shows size f s a x
      → Shows size g s a x
  unfolding Shows
  Agree-Shows size s a x p (inl (i, l, e, b)) = inl (i, l, p.same_cur i ∙ e, p.same_block i ∙ b)
  Agree-Shows size s a x p (inr (out, r)) = inr (λ i l e. out i l (sym (p.same_cur i) ∙ e), r)

  -- The disk holds what buffer `i` holds, and is elsewhere as it was.
  pub record Flushed (bufs : ℕ → Buf B) (s : St) (i : ℕ) (s' : St) : Type 0 where
    pub saved : (bufs i).cur ≢ no_block → (b : B) → read s' (bufs i).cur b ≡ (true, (bufs i).block)
    pub others : (a : ℕ) (b : B) → Grid a → (bufs i).cur ≢ a → read s' a b ≡ read s a b

  pub fs_write-Flushed :
      {size : ℕ} {bufs : ℕ → Buf B} {s : St} (i : ℕ)
      → i < size
      → Coherent size bufs s
      → (fs_write d (bufs i) s).0 ≡ true
      → Flushed bufs s i (fs_write d (bufs i) s).2
  unfolding fs_write
  fs_write-Flushed {size} {bufs} {s} i l c = elim (Bool-cases ((bufs i).cur == no_block)) [
    | inl n ↦ rw n (λ e. record {
      saved = λ used. absurd (used ((==_iff (bufs i).cur no_block).0 n));
      others = λ a b ga ne. refl;
    })
    | inr u ↦ elim (Bool-cases (dirty_bit (bufs i).state == 0)) [
      | inl n ↦
          rw (u, n)
            (λ e. record {
              saved = λ used. c.clean i l used ((==_iff _ 0).0 n);
              others = λ a b ga ne. refl;
            })
      | inr dirty ↦ rw (u, dirty) (written (write s (bufs i).cur (bufs i).block) refl (used u))
    ]
  ]
    where
      used : ((bufs i).cur == no_block) ≡ false → (bufs i).cur ≢ no_block
      used u e = cc (sym u ∙ (==_iff (bufs i).cur no_block).1 e)

      written :
          (r : Bool × St)
          → r ≡ write s (bufs i).cur (bufs i).block
          → (bufs i).cur ≢ no_block
          → (write_back d (bufs i) r).0 ≡ true
          → Flushed bufs s i (write_back d (bufs i) r).2
      written (true, s') e used ok =
          unfold write_back in
          record {
            saved = λ u b. rw (ap (λ t. t.1) e) (
                read-write s (bufs i).cur (bufs i).block b (c.grid i l used)
                  (sym (ap (λ t. t.0) e)));
            others = λ a b ga ne.
                rw (ap (λ t. t.1) e)
                  (read-write_ne s (bufs i).cur a (bufs i).block b (c.grid i l used) ga ne);
          }
      written (false, s') e used ok = unfold write_back in cc

  -- The block `a`, not in the cache, takes the place of a flushed buffer. What the cache shows of any
  -- other block stays.
  module _ {size : ℕ} {bufs : ℕ → Buf B} {s s' : St} (i : ℕ) (new : Buf B) (inside : i < size)
      (c : Coherent size bufs s) (fl : Flushed bufs s i s') (ga : Grid new.cur)
      (na : new.cur ≢ no_block) (absent : (j : ℕ) → j < size → (bufs j).cur ≢ new.cur) where
    pub place-Shows :
        (a : ℕ) (x : B)
        → Grid a
        → a ≢ no_block
        → a ≢ new.cur
        → Shows size bufs s a x
        → Shows size (update bufs i new) s' a x
    unfolding Shows
    place-Shows a x g u ne (inl (j, l, e, b)) = elim (Bool-cases (i == j)) [
      | inl t ↦
          let ij : j ≡ i = sym ((==_iff i j).0 t) in
          let ci : (bufs i).cur ≡ a = subst (λ k. (bufs k).cur ≡ a) ij e in
          let bi : (bufs i).block ≡ x = subst (λ k. (bufs k).block ≡ x) ij b in
          inr (
            λ k lk. elim (Bool-cases (i == k)) [
              | inl tk ↦ rw tk (λ q. ne (sym q))
              | inr fk ↦ rw fk (λ q.
                  let same : i ≡ k = c.distinct i k inside lk (λ z. u (sym ci ∙ z)) (ci ∙ sym q) in
                  cc (sym fk ∙ (==_iff i k).1 same))
            ],
            λ b'.
                subst (λ z. read s' z b' ≡ (true, x)) ci
                  (fl.saved (λ z. u (sym ci ∙ z)) b' ∙ ap (λ y. (true, y)) bi),
          )
      | inr f ↦ inl (j, l, rw f e, rw f b)
    ]
    place-Shows a x g u ne (inr (out, r)) = inr (
      λ k lk. elim (Bool-cases (i == k)) [
        | inl tk ↦ rw tk (λ q. ne (sym q))
        | inr fk ↦ rw fk (out k lk)
      ],
      λ b'. fl.others a b' g (out i inside) ∙ r b',
    )

    pub place-Coherent :
        (dirty_bit new.state ≡ 0 → (b : B) → read s' new.cur b ≡ (true, new.block))
        → Coherent size (update bufs i new) s'
    place-Coherent same = record {
      grid =
          λ j l. elim (Bool-cases (i == j)) [ inl t ↦ rw t (λ u. ga) | inr f ↦ rw f (c.grid j l) ];
      distinct = λ j k lj lk. elim (Bool-cases (i == j)) [
        | inl t ↦ elim (Bool-cases (i == k)) [
          | inl t' ↦ λ u e. sym ((==_iff i j).0 t) ∙ (==_iff i k).0 t'
          | inr f' ↦ rw (t, f') (λ u e. absurd (absent k lk (sym e)))
        ]
        | inr f ↦ elim (Bool-cases (i == k)) [
          | inl t' ↦ rw (f, t') (λ u e. absurd (absent j lj e))
          | inr f' ↦ rw (f, f') (c.distinct j k lj lk)
        ]
      ];
      clean = λ j l. elim (Bool-cases (i == j)) [
        | inl t ↦ rw t (λ u. same)
        | inr f ↦ rw f (λ u n b.
            fl.others (bufs j).cur b (c.grid j l u)
              (λ e. cc (sym f ∙ (==_iff i j).1 (sym (c.distinct j i l inside u (sym e)))))
            ∙ c.clean j l u n b)
      ];
    }
