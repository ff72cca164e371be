-- ===== src/FsCache/Tests.antt =====
-- A device made of a function from addresses, and the cache's theorems over it.
use os_final_program.Base.{
  ℕ, zero, suc, ◌+◌, ◌/◌, ◌%◌, ◌<◌, ◌≡◌, refl, ◌≢◌, Bool, true, arith, ◌==◌, if◌then◌else◌, ==_refl,
  ==_ne,
}
use os_final_program.FsCache.Disk.{Device}
use os_final_program.FsCache.{Buf, Cache, no_block, fs_read, fs_clr, fs_victim}
use os_final_program.FsCache.Victim.{Victim, fs_victim-Victim}
use os_final_program.FsCache.Coherent.{Coherent}
use os_final_program.FsCache.Read.{Reads, fs_read-Reads}
use os_final_program.FsCache.Clear.{Clears, fs_clr-Clears}

abbrev put_at : (ℕ → ℕ) → ℕ → ℕ → ℕ → ℕ
put_at s a b x = if a == x then b else s x

abbrev numbers : Device
numbers = record {
  St = ℕ → ℕ;
  B = ℕ;
  Grid = λ a. Unit {0};
  zeros = 0;
  read = λ s a b. (true, s a);
  write = λ s a b. (true, put_at s a b);
  read-write = λ s a b c g ok. rw (==_refl a);
  read-write_ne = λ s a a' b c g g' n. rw (==_ne a a' n);
  read_same = λ s a b c ok. refl;
}

-- Two buffers: block 5, dirty, and none. The disk holds at each address its double.
abbrev two_bufs : ℕ → Buf ℕ
two_bufs zero = record { block = 77; cur = 5; state = 3 }
two_bufs (suc i) = record { block = 0; cur = no_block; state = 0 }

abbrev start : Cache numbers
start = record { bufs = two_bufs; clock_head = 0; disk = λ a. a + a }

start-distinct :
    (i j : ℕ)
    → i < 2
    → j < 2
    → (two_bufs i).cur ≢ no_block
    → (two_bufs i).cur ≡ (two_bufs j).cur
    → i ≡ j
start-distinct zero zero l m u e = refl
start-distinct zero (suc j) l m u e = absurd (omega arith)
start-distinct (suc i) j l m u e = absurd (u refl)

start-clean :
    (i : ℕ)
    → i < 2
    → (two_bufs i).cur ≢ no_block
    → (two_bufs i).state / 2 % 2 ≡ 0
    → (b : ℕ)
    → ◌≡◌ {A = Bool × ℕ} (true, (two_bufs i).cur + (two_bufs i).cur) (true, (two_bufs i).block)
start-clean zero l u e b = absurd (omega arith)
start-clean (suc i) l u e b = absurd (u refl)

start-Coherent : Coherent numbers 2 two_bufs (λ a. a + a)
start-Coherent = record { grid = λ i l u. tt; distinct = start-distinct; clean = start-clean }

fs_victim-Victim_example : Victim 2 two_bufs (fs_victim two_bufs 0 2)
fs_victim-Victim_example = fs_victim-Victim two_bufs 0 2 (omega arith)

victim_is_free : (fs_victim two_bufs 0 2).0 ≡ 1
unfolding fs_victim
victim_is_free = refl

fs_read-Reads_example : Reads numbers 2 start 9 1 (fs_read numbers 6 start 3 2).1
unfolding fs_read
fs_read-Reads_example =
    fs_read-Reads numbers 6 2 3 1 start start-Coherent (omega arith) tt (omega arith) refl

start_absent : (i : ℕ) → i < 2 → (two_bufs i).cur ≢ 9
start_absent zero l e = omega arith
start_absent (suc i) l e = omega arith

fs_clr-Clears_example : Clears numbers 2 start 9 (fs_clr numbers start 2 9).1
unfolding fs_clr
fs_clr-Clears_example =
    fs_clr-Clears numbers 2 9 start start-Coherent (omega arith) tt (omega arith) start_absent refl
