-- ===== src/Lock.antt =====
-- kernel/lock/mylock.c and include/zjunix/mylock.h: the slots and tickets of the bakery lock. `do_lock` is modelled
-- up to the loop in which it waits for the other tickets, as one step. The interrupt flag, and `lockup`
-- and `unlock`, which only look up the current process, are no part of it.
use os_final_program.Base.{
  ℕ, zero, suc, ◌+◌, ◌-◌, ◌*◌, ◌/◌, ◌%◌, ◌^◌, ◌≤◌, ◌<◌, bit_and, bit_or, bit_xor, ◌≡◌, refl, sym,
  ap, ap₂, subst, ◌∙◌, ◌≢◌, ◌↔◌, ◌⊎◌, inl, inr, Bool, true, false, not, ◌&&◌, ◌||◌, Option, none,
  some, List, [], ◌∷◌, ◌++◌, map, arith, ltb, leb, ◌==◌, if◌then◌else◌, ltb→lt, lt→ltb, ==_iff,
  ==_refl, ==_ne, Bool-cases, Option-cases, length, get_or, set, replicate, length-append,
  length-set, length-replicate, get_or-set_self, get_or-set_ne, set-get_or, get_or-replicate,
  get_or-set, contains, contains-append, byte_test, byte_test-set, byte_test-clear, byte_test-shift,
  byte_bounds, u32, shr, shl, low_bits, sub32, word_max, page_align_up, page_align_down,
}
pub mod Slots
pub mod Uses
mod Tests

abbrev pub max_con : ℕ
max_con = 8

-- `struct lock_t`. A slot is `none` where `hashMap` is negative.
pub record Lock : Type 0 where
  pub hash_map : List (Option ℕ)
  pub number : List ℕ
  pub choosing : List ℕ

unfoldable pub init_lock : Lock
init_lock = record {
  hash_map = replicate max_con none;
  number = replicate max_con 0;
  choosing = replicate max_con 0;
}

pub is_free : Option ℕ → Bool
is_free none = true
is_free (some pid) = false

-- The loop for the first free slot, from `i` on.
pub first_free : List (Option ℕ) → ℕ → Option ℕ
unfolding is_free
first_free [] i = none
first_free (s ∷ ss) i = if is_free s then some i else first_free ss (i + 1)

-- The slot for `pid`: that of its hash, or else the first free one, if there is any.
pub find_slot : List (Option ℕ) → ℕ → Option ℕ
unfolding first_free is_free
find_slot m pid =
    if is_free (get_or m (pid % max_con) none) then some (pid % max_con) else first_free m 0

-- The largest of the numbers and `temp`.
pub largest : ℕ → List ℕ → ℕ
largest temp [] = temp
largest temp (n ∷ ns) = largest (if ltb temp n then n else temp) ns

-- The slot is taken, and the process draws the next number.
take_slot : Lock → ℕ → Option ℕ → Option (ℕ × Lock)
unfolding largest
take_slot l pid none = none
take_slot l pid (some i) = some (
  i,
  record {
    hash_map = set l.hash_map i (some pid);
    number = set l.number i (largest 0 l.number + 1);
    choosing = set l.choosing i 0;
  },
)

-- The slot and the lock when the process begins to wait; `none` for one that tries for a slot again.
unfoldable pub do_lock : Lock → ℕ → Option (ℕ × Lock)
unfolding take_slot find_slot
do_lock l pid = take_slot l pid (find_slot l.hash_map pid)

holds_pid : ℕ → Option ℕ → Bool
holds_pid pid none = false
holds_pid pid (some q) = q == pid

-- The first slot of `pid`, from `i` on.
pub slot_of : List (Option ℕ) → ℕ → ℕ → Option ℕ
unfolding holds_pid
slot_of [] pid i = none
slot_of (s ∷ ss) pid i = if holds_pid pid s then some i else slot_of ss pid (i + 1)

free_slot : Lock → Option ℕ → Lock
free_slot l none = l
free_slot l (some i) = record l { number = set l.number i 0; hash_map = set l.hash_map i (some 0) }

pub do_unlock : Lock → ℕ → Lock
unfolding free_slot slot_of
do_unlock l pid = free_slot l (slot_of l.hash_map pid 0)
