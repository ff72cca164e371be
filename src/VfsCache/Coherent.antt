-- ===== src/VfsCache/Coherent.antt =====
-- The table and the order of use of a cache hold the same entries.
use os_final_program.Base.{
  ℕ, ◌+◌, ◌≤◌, ◌<◌, ◌≡◌, sym, inl, inr, true, false, not, ◌&&◌, ◌||◌, some, arith, ◌==◌, ==_iff,
  ==_refl, Bool-cases, length, contains, sub32, word_max,
}
use os_final_program.Pc.Queues.{unlink}
use os_final_program.Pc.QueueLaws.{contains-unlink}
use os_final_program.VfsCache.{Cache, touch, push_front}
use os_final_program.VfsCache.Lists.{distinct, distinct-unlink, length-unlink}

-- `key` is the list of the table on which an entry belongs.
pub record Coherent (key : ℕ → ℕ) (c : Cache) : Type 0 where
  pub no_twice : distinct c.lru ≡ true
  pub counted : c.c_size ≡ length c.lru
  pub fits : length c.lru ≤ c.c_capacity
  pub is_word : c.c_capacity ≤ word_max
  pub hashed : (i t : ℕ) → contains (c.hashtable i) t ≡ (contains c.lru t && (key t == i))

pub touch-Coherent :
    (key : ℕ → ℕ) (c : Cache) (t : ℕ)
    → contains c.lru t ≡ true
    → Coherent key c
    → Coherent key (touch c (key t) (some t)).1
unfolding touch distinct
touch-Coherent key c t h v = record {
  no_twice = rw (contains-unlink t t c.lru, ==_refl t) (distinct-unlink t c.lru v.no_twice);
  counted = omega (arith, v.counted, same_length);
  fits = omega (arith, v.fits, same_length);
  is_word = v.is_word;
  hashed = λ i u. elim (Bool-cases (key t == i)) [
    | inl e ↦
        rw
          (
            e,
            contains-unlink t u (c.hashtable (key t)),
            contains-unlink t u c.lru,
            v.hashed (key t) u,
          )
          (moved i u e)
    | inr e ↦ rw (e, contains-unlink t u c.lru, v.hashed i u) (other i u e)
  ];
}
  where
    same_length : length (unlink t c.lru) + 1 ≡ length c.lru
    same_length = length-unlink t c.lru v.no_twice h

    moved :
        (i u : ℕ)
        → (key t == i) ≡ true
        → ((t == u) || (not (t == u) && (contains c.lru u && (key u == key t))))
          ≡ (((t == u) || (not (t == u) && contains c.lru u)) && (key u == i))
    moved i u e = elim (Bool-cases (t == u)) [
      | inl z ↦ rw (z, sym ((==_iff t u).0 z), e)
      | inr z ↦ rw (z, (==_iff (key t) i).0 e)
    ]

    other :
        (i u : ℕ)
        → (key t == i) ≡ false
        → (contains c.lru u && (key u == i))
          ≡ (((t == u) || (not (t == u) && contains c.lru u)) && (key u == i))
    other i u e = elim (Bool-cases (t == u)) [
      | inl z ↦ rw (z, sym ((==_iff t u).0 z), e) (ground arith)
      | inr z ↦ rw z
    ]

pub push_front-Coherent :
    (key : ℕ → ℕ) (c : Cache) (t : ℕ)
    → contains c.lru t ≡ false
    → length c.lru < c.c_capacity
    → Coherent key c
    → Coherent key (push_front c (key t) t)
unfolding push_front distinct
push_front-Coherent key c t h l v = record {
  no_twice = rw h v.no_twice;
  counted = omega (arith, v.counted, v.is_word);
  fits = omega arith;
  is_word = v.is_word;
  hashed = λ i u. elim (Bool-cases (key t == i)) [
    | inl e ↦ rw (e, v.hashed (key t) u) (entered i u e)
    | inr e ↦ rw (e, v.hashed i u) (other i u e)
  ];
}
  where
    entered :
        (i u : ℕ)
        → (key t == i) ≡ true
        → ((t == u) || (contains c.lru u && (key u == key t)))
          ≡ (((t == u) || contains c.lru u) && (key u == i))
    entered i u e = elim (Bool-cases (t == u)) [
      | inl z ↦ rw (z, sym ((==_iff t u).0 z), e)
      | inr z ↦ rw (z, (==_iff (key t) i).0 e)
    ]

    other :
        (i u : ℕ)
        → (key t == i) ≡ false
        → (contains c.lru u && (key u == i)) ≡ (((t == u) || contains c.lru u) && (key u == i))
    other i u e = elim (Bool-cases (t == u)) [
      | inl z ↦ rw (z, sym ((==_iff t u).0 z), e) (ground arith)
      | inr z ↦ rw z
    ]

-- An entry that leaves the order of use and the table.
pub removed-Coherent :
    (key : ℕ → ℕ) (c : Cache) (t : ℕ)
    → contains c.lru t ≡ true
    → Coherent key c
    → Coherent key (record c {
      lru = unlink t c.lru;
      hashtable = λ i. unlink t (c.hashtable i);
      c_size = sub32 c.c_size 1;
    })
removed-Coherent key c t h v =
    let e : length (unlink t c.lru) + 1 ≡ length c.lru = length-unlink t c.lru v.no_twice h in
    record {
      no_twice = distinct-unlink t c.lru v.no_twice;
      counted = omega (arith, v.counted, v.is_word, v.fits, e);
      fits = omega (arith, v.fits, e);
      is_word = v.is_word;
      hashed = λ i u.
          rw (contains-unlink t u (c.hashtable i), contains-unlink t u c.lru, v.hashed i u)
            (ground arith);
    }
