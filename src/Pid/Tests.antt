-- ===== src/Pid/Tests.antt =====
-- Runs of the pid allocator, and its theorems at concrete bitmaps.
use os_final_program.Base.{
  ℕ, zero, suc, ◌<◌, ◌≡◌, refl, ◌⊎◌, true, false, ◌∷◌, arith, get_or, replicate,
}
use os_final_program.Pid.{
  Pid, IsValid, init_pid, pid_check, pid_search, pid_alloc, pid_free, allocated, no_pid,
  out_of_bounds,
}
use os_final_program.Pid.Alloc.{
  Allocates, pid_alloc-Allocates, pid_alloc_complete, pid_alloc-out_of_bounds,
}
use os_final_program.Pid.Free.{pid_free-alloc}

-- Pids 0 to 8 are taken but 3.
abbrev busy : Pid
busy = record { pidmap = 0xf7 ∷ 1 ∷ replicate 30 0; next_pid = 1 }

zeros : (n i : ℕ) → get_or (replicate n 0) i 0 < 256
zeros zero i = omega arith
zeros (suc n) zero = omega arith
zeros (suc n) (suc i) = zeros n i

busy_bytes : (i : ℕ) → get_or busy.pidmap i 0 < 256
busy_bytes zero = omega arith
busy_bytes (suc zero) = omega arith
busy_bytes (suc (suc i)) = zeros 30 i

busy-IsValid : IsValid busy
busy-IsValid = record { size = refl; bytes = busy_bytes; next_le = omega arith }

first_alloc : (pid_alloc init_pid).0 ≡ allocated 1
unfolding pid_alloc init_pid pid_search
first_alloc = refl

busy_alloc : (pid_alloc busy).0 ≡ allocated 3
unfolding pid_alloc pid_search
busy_alloc = refl

pid_alloc-Allocates_example : Allocates busy 3 (pid_alloc busy).1
pid_alloc-Allocates_example = pid_alloc-Allocates busy 3 busy-IsValid (omega arith) busy_alloc

pid_alloc_complete_example :
    (((p : ℕ) × ((pid_alloc busy).0 ≡ allocated p))
      × ((p : ℕ) × (p < 256) × (pid_check busy p ≡ false)))
    ⊎ ((pid_alloc busy ≡ (no_pid, busy)) × ((p : ℕ) → p < 256 → pid_check busy p ≡ true))
pid_alloc_complete_example = pid_alloc_complete busy busy-IsValid (omega arith)

-- Pid 254 has been given out last; all pids but 0 are free again.
abbrev near_last : Pid
near_last = record { pidmap = 1 ∷ replicate 31 0; next_pid = 255 }

near_last_bytes : (i : ℕ) → get_or near_last.pidmap i 0 < 256
near_last_bytes zero = omega arith
near_last_bytes (suc i) = zeros 31 i

near_last-IsValid : IsValid near_last
near_last-IsValid = record { size = refl; bytes = near_last_bytes; next_le = omega arith }

near_last_alloc : (pid_alloc near_last).0 ≡ allocated 255
unfolding pid_alloc pid_search
near_last_alloc = refl

pid_alloc-out_of_bounds_example : (pid_alloc (pid_alloc near_last).1).0 ≡ out_of_bounds
pid_alloc-out_of_bounds_example =
    pid_alloc-out_of_bounds near_last near_last-IsValid (omega arith) near_last_alloc

pid_free-alloc_example :
    ((pid_free (pid_alloc busy).1 3).0 ≡ true)
    × ((q : ℕ) → q < 256 → pid_check (pid_free (pid_alloc busy).1 3).1 q ≡ pid_check busy q)
pid_free-alloc_example = pid_free-alloc busy 3 busy-IsValid (omega arith) busy_alloc
