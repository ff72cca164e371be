-- ===== src/Pid/Free.antt =====
-- `pid_free`, and what an allocation followed by a release leaves.
use os_final_program.Base.{
  ℕ, ◌/◌, ◌<◌, ◌≡◌, refl, sym, ap, ◌∙◌, ◌⊎◌, inl, inr, Bool, true, false, not, ◌&&◌, ◌||◌, arith,
  ◌==◌, ==_iff, ==_refl, Bool-cases, length, length-set, byte_bounds,
}
use os_final_program.Pid.{Pid, IsValid, pid_check, pid_free, allocated, pid_alloc}
use os_final_program.Bitmap.{bit_at-clear, bytes-set}
use os_final_program.Pid.Alloc.{pid_check-eq-bit_at, Allocates, pid_alloc-Allocates}

lt_of_pid_check : (s : Pid) (p : ℕ) → pid_check s p ≡ true → p < 256
unfolding pid_check
lt_of_pid_check s p h = ground arith

-- What a release of `p` makes of `s`.
pub record Frees (s : Pid) (p : ℕ) (s' : Pid) : Type 0 where
  pub cleared : (q : ℕ) → q < 256 → pid_check s' q ≡ (not (p == q) && pid_check s q)
  pub next : s'.next_pid ≡ s.next_pid
  pub valid : IsValid s'

module _ (s : Pid) (p : ℕ) (v : IsValid s) (t : pid_check s p ≡ true) where
  inside : p / 8 < length s.pidmap
  inside = omega (arith, v.size, lt_of_pid_check s p t)

  pid_free-Frees : Frees s p (pid_free s p).1
  unfolding pid_free
  pid_free-Frees = rw t (record {
    cleared = λ q hq.
        pid_check-eq-bit_at _ q hq
        ∙ bit_at-clear s.pidmap p q inside v.bytes
        ∙ ap (λ t. not (p == q) && t) (sym (pid_check-eq-bit_at s q hq));
    next = refl;
    valid = record {
      size = length-set s.pidmap (p / 8) _ ∙ v.size;
      bytes =
          bytes-set s.pidmap (p / 8) _ inside (byte_bounds _ _ (v.bytes (p / 8)) (omega arith)).1
            v.bytes;
      next_le = v.next_le;
    };
  })

-- On a well-formed bitmap, `pid_free` of a pid that is out of range or free reports failure and
-- changes nothing; of any other it reports success, clears the mark of that pid and of no other,
-- leaves `next_pid`, and keeps the bitmap well formed.
pub pid_free-cases :
    (s : Pid) (p : ℕ)
    → IsValid s
    → ((pid_check s p ≡ false) × (pid_free s p ≡ (false, s)))
      ⊎ ((pid_check s p ≡ true) × ((pid_free s p).0 ≡ true) × Frees s p (pid_free s p).1)
unfolding pid_free
pid_free-cases s p v = elim (Bool-cases (pid_check s p)) [
  | inl t ↦ inr (t, rw t, pid_free-Frees s p v t)
  | inr f ↦ inl (f, rw f)
]

marks_restored : (e a : Bool) → (e ≡ true → a ≡ false) → (not e && (e || a)) ≡ a
marks_restored e a h = ground arith

-- A pid that has just been allocated, from a well-formed bitmap and with the search starting below
-- 256, can be released, and then exactly the pids allocated before are allocated.
pub pid_free-alloc :
    (s : Pid) (p : ℕ)
    → IsValid s
    → s.next_pid < 256
    → (pid_alloc s).0 ≡ allocated p
    → ((pid_free (pid_alloc s).1 p).0 ≡ true)
      × ((q : ℕ) → q < 256 → pid_check (pid_free (pid_alloc s).1 p).1 q ≡ pid_check s q)
unfolding pid_free
pid_free-alloc s p v h e = (
  rw t,
  λ q hq.
      (pid_free-Frees s' p a.valid t).cleared q hq
      ∙ ap (λ b. not (p == q) && b) (a.marked q hq)
      ∙ marks_restored (p == q) (pid_check s q)
          (λ m. ap (pid_check s) (sym ((==_iff p q).0 m)) ∙ a.was_free),
)
  where
    s' : Pid
    s' = (pid_alloc s).1

    a : Allocates s p s'
    a = pid_alloc-Allocates s p v h e

    t : pid_check s' p ≡ true
    t = a.marked p a.in_range ∙ rw (==_refl p)
