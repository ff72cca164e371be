-- ===== src/Pid.antt =====
-- kernel/pc/pid.c and include/zjunix/pid.h: the bitmap of process identifiers. `Pid` holds the two
-- globals `pidmap` and `next_pid`. Each function that writes them returns the new pair beside its
-- result. A read of `pidmap` past its last byte is the result `out_of_bounds`.
pub mod Alloc
pub mod Free
mod Tests
use os_final_program.Base.{
  ℕ, zero, suc, ◌+◌, ◌-◌, ◌/◌, ◌%◌, ◌^◌, ◌<◌, ◌≤◌, bit_and, bit_or, ◌≡◌, Bool, true, false, not,
  List, [], ◌∷◌, ◌==◌, leb, if◌then◌else◌, get_or, set, replicate, length, byte_test,
}

abbrev pub pid_num : ℕ
pid_num = 256

abbrev pub pid_bytes : ℕ
pid_bytes = (pid_num + 7) / 8

pub record Pid : Type 0 where
  pub pidmap : List ℕ
  pub next_pid : ℕ

-- The bitmap starts with the idle process, and the search with `PID_MIN`.
pub init_pid : Pid
init_pid = record { pidmap = 1 ∷ replicate 31 0; next_pid = 1 }

-- 1 for a pid that is allocated.
pub pid_check : Pid → ℕ → Bool
pid_check s pid =
    if leb pid_num pid
    then false
    else not (bit_and (get_or s.pidmap (pid / 8) 0) (2 ^ (pid % 8)) == 0)

pub data Search : Type 0 where
  found : ℕ → Search
  exhausted : Search
  beyond : Search

-- The `for` loop of `pid_alloc`: the rounds that are left, and `tmp`.
pub pid_search : List ℕ → ℕ → ℕ → Search
pid_search m zero tmp = exhausted
pid_search m (suc n) tmp =
    let rest = pid_search m n ((tmp + 1) % pid_num) in
    if leb pid_bytes (tmp / 8)
    then beyond
    else if bit_and (get_or m (tmp / 8) 0 / 2 ^ (tmp % 8)) 1 == 0
    then found tmp
    else rest

pub data AllocResult : Type 0 where
  allocated : ℕ → AllocResult
  no_pid : AllocResult
  out_of_bounds : AllocResult

take_pid : Pid → Search → AllocResult × Pid
take_pid s (found p) = (
  allocated p,
  record {
    pidmap = set s.pidmap (p / 8) (bit_or (get_or s.pidmap (p / 8) 0) (2 ^ (p % 8)));
    next_pid = p + 1;
  },
)
take_pid s exhausted = (no_pid, s)
take_pid s beyond = (out_of_bounds, s)

pub pid_alloc : Pid → AllocResult × Pid
unfolding take_pid
pid_alloc s = take_pid s (pid_search s.pidmap pid_num s.next_pid)

-- `true` for the result 0. `~(1 << off)` of a byte is `255 - (1 << off)`.
pub pid_free : Pid → ℕ → Bool × Pid
pid_free s pid =
    if pid_check s pid
    then (
      true,
      record s {
        pidmap =
            set s.pidmap (pid / 8) (bit_and (get_or s.pidmap (pid / 8) 0) (255 - 2 ^ (pid % 8)));
      },
    )
    else (false, s)

-- The bitmap has its size and holds bytes.
pub record IsValid (s : Pid) : Type 0 where
  pub size : length s.pidmap ≡ pid_bytes
  pub bytes : (i : ℕ) → get_or s.pidmap i 0 < 256
  pub next_le : s.next_pid ≤ pid_num
