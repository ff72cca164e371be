-- ===== src/Pid/Alloc.antt =====
-- `pid_alloc`: what it finds, what it changes, when it fails.
use os_final_program.Base.{
  ℕ, zero, suc, ◌+◌, ◌-◌, ◌/◌, ◌%◌, ◌^◌, ◌<◌, bit_and, ◌≡◌, refl, sym, ap, subst, ◌∙◌, ◌⊎◌, inl,
  inr, true, false, not, ◌||◌, List, arith, leb, ◌==◌, Bool-cases, length, get_or, length-set,
  byte_test-shift, byte_bounds,
}
use os_final_program.Pid.{
  Pid, IsValid, Search, found, exhausted, beyond, pid_search, allocated, no_pid, out_of_bounds,
  pid_alloc, take_pid, pid_check, pid_num,
}
use os_final_program.Bitmap.{bit_at, bit_at-set, bytes-set}

-- Below 256, `pid_check` reads the bitmap.
pub pid_check-eq-bit_at : (s : Pid) (p : ℕ) → p < 256 → pid_check s p ≡ bit_at s.pidmap p
unfolding pid_check bit_at
pid_check-eq-bit_at s p h = ground arith

-- What the search says of the `n` identifiers from `t` on.
Outcome : List ℕ → ℕ → ℕ → Search → Type 0
Outcome m n t (found p) = (p < 256) × (bit_at m p ≡ false)
Outcome m n t exhausted = (k : ℕ) → k < n → bit_at m ((t + k) % 256) ≡ true
Outcome m n t beyond = ⊥

module _ (m : List ℕ) (bytes : (i : ℕ) → get_or m i 0 < 256) where
  all_taken :
      (n t : ℕ)
      → t < 256
      → bit_at m t ≡ true
      → Outcome m n ((t + 1) % 256) exhausted
      → (k : ℕ) → k < suc n
      → bit_at m ((t + k) % 256) ≡ true
  unfolding Outcome
  all_taken n t h b o zero hk =
      let e : (t + 0) % 256 ≡ t = omega arith in ap (λ k. bit_at m k) e ∙ b
  all_taken n t h b o (suc k) hk =
      let e : (t + suc k) % 256 ≡ ((t + 1) % 256 + k) % 256 = omega arith in
      ap (λ k. bit_at m k) e ∙ o k (omega arith)

  exhausted-suc :
      (n t : ℕ) (r : Search)
      → t < 256
      → bit_at m t ≡ true
      → Outcome m n ((t + 1) % 256) r
      → Outcome m (suc n) t r
  unfolding Outcome
  exhausted-suc n t (found p) h b o = o
  exhausted-suc n t exhausted h b o = all_taken n t h b o
  exhausted-suc n t beyond h b o = o

  free_test : (t : ℕ) → (bit_and (get_or m (t / 8) 0 / 2 ^ (t % 8)) 1 == 0) ≡ not (bit_at m t)
  unfolding bit_at
  free_test t = byte_test-shift _ _ (bytes (t / 8)) (omega arith)

  pid_search-Outcome : (n t : ℕ) → t < 256 → Outcome m n t (pid_search m n t)
  unfolding pid_search Outcome
  pid_search-Outcome zero t h = λ k hk. absurd (omega arith)
  pid_search-Outcome (suc n) t h =
      rw (inside, free_test t)
        (elim (Bool-cases (bit_at m t)) [
          | inl b ↦
              rw b (exhausted-suc n t _ h b (pid_search-Outcome n ((t + 1) % 256) (omega arith)))
          | inr b ↦ rw b (h, b)
        ])
    where
      inside : leb 32 (t / 8) ≡ false
      inside = ground arith

-- What an allocation of `p` makes of `s`.
pub record Allocates (s : Pid) (p : ℕ) (s' : Pid) : Type 0 where
  pub in_range : p < 256
  pub was_free : pid_check s p ≡ false
  pub marked : (q : ℕ) → q < 256 → pid_check s' q ≡ ((p == q) || pid_check s q)
  pub next : s'.next_pid ≡ p + 1
  pub valid : IsValid s'

take_pid-Allocates :
    (s : Pid) (p : ℕ)
    → IsValid s
    → (p < 256) × (bit_at s.pidmap p ≡ false)
    → Allocates s p (take_pid s (found p)).1
unfolding take_pid
take_pid-Allocates s p v (h, b) = record {
  in_range = h;
  was_free = pid_check-eq-bit_at s p h ∙ b;
  marked = λ q hq.
      pid_check-eq-bit_at (take_pid s (found p)).1 q hq
      ∙ bit_at-set s.pidmap p q inside v.bytes
      ∙ ap (λ t. (p == q) || t) (sym (pid_check-eq-bit_at s q hq));
  next = refl;
  valid = record {
    size = length-set s.pidmap (p / 8) _ ∙ v.size;
    bytes =
        bytes-set s.pidmap (p / 8) _ inside (byte_bounds _ _ (v.bytes (p / 8)) (omega arith)).0
          v.bytes;
    next_le = omega arith;
  };
}
  where
    inside : p / 8 < length s.pidmap
    inside = omega (arith, v.size)

-- An allocation that succeeds returns a pid below 256 that was free, marks it and leaves the mark of
-- every other pid alone, moves `next_pid` behind it and keeps the bitmap well formed. The
-- hypothesis is a well-formed bitmap and a search that starts below 256.
pub pid_alloc-Allocates :
    (s : Pid) (p : ℕ)
    → IsValid s
    → s.next_pid < 256
    → (pid_alloc s).0 ≡ allocated p
    → Allocates s p (pid_alloc s).1
unfolding pid_alloc
pid_alloc-Allocates s p v h e =
    go (pid_search s.pidmap pid_num s.next_pid)
      (pid_search-Outcome s.pidmap v.bytes 256 s.next_pid h) e
  where
    go :
        (r : Search)
        → Outcome s.pidmap 256 s.next_pid r
        → (take_pid s r).0 ≡ allocated p
        → Allocates s p (take_pid s r).1
    go (found q) o e =
        let same : q ≡ p = unfold take_pid in cc in
        subst (λ k. Allocates s p (take_pid s (found k)).1) (sym same)
          (take_pid-Allocates s p v
            (unfold Outcome in subst (λ k. (k < 256) × (bit_at s.pidmap k ≡ false)) same o))
    go exhausted o e = unfold take_pid in cc
    go beyond o e = unfold take_pid in cc

-- From a well-formed bitmap and a search that starts below 256, the allocation never reads out of
-- bounds, and it fails exactly when all 256 pids are allocated; a failure changes nothing.
pub pid_alloc_complete :
    (s : Pid)
    → IsValid s
    → s.next_pid < 256
    → (((p : ℕ) × ((pid_alloc s).0 ≡ allocated p))
        × ((p : ℕ) × (p < 256) × (pid_check s p ≡ false)))
      ⊎ ((pid_alloc s ≡ (no_pid, s)) × ((p : ℕ) → p < 256 → pid_check s p ≡ true))
unfolding pid_alloc take_pid
pid_alloc_complete s v h =
    go (pid_search s.pidmap pid_num s.next_pid)
      (pid_search-Outcome s.pidmap v.bytes 256 s.next_pid h)
  where
    go :
        (r : Search)
        → Outcome s.pidmap 256 s.next_pid r
        → (((p : ℕ) × ((take_pid s r).0 ≡ allocated p))
            × ((p : ℕ) × (p < 256) × (pid_check s p ≡ false)))
          ⊎ ((take_pid s r ≡ (no_pid, s)) × ((p : ℕ) → p < 256 → pid_check s p ≡ true))
    go (found q) o = unfold Outcome in inl ((q, refl), (q, o.0, pid_check-eq-bit_at s q o.0 ∙ o.1))
    go exhausted o =
        unfold Outcome in
        inr (
          refl,
          λ p hp.
              let e : (s.next_pid + (p + 256 - s.next_pid) % 256) % 256 ≡ p = omega arith in
              pid_check-eq-bit_at s p hp
              ∙ ap (λ k. bit_at s.pidmap k) (sym e)
              ∙ o ((p + 256 - s.next_pid) % 256) (omega arith),
        )
    go beyond o = unfold Outcome in absurd o

past_the_end : (s : Pid) → s.next_pid ≡ 256 → (pid_alloc s).0 ≡ out_of_bounds
unfolding pid_alloc take_pid pid_search
past_the_end s e = rw e

-- From a well-formed bitmap and a search that starts below 256, after an allocation that gives out the
-- last pid, 255, the next allocation reads past the bitmap, whatever pids are free.
pub pid_alloc-out_of_bounds :
    (s : Pid)
    → IsValid s
    → s.next_pid < 256
    → (pid_alloc s).0 ≡ allocated 255
    → (pid_alloc (pid_alloc s).1).0 ≡ out_of_bounds
pid_alloc-out_of_bounds s v h e =
    past_the_end (pid_alloc s).1 ((pid_alloc-Allocates s 255 v h e).next)
