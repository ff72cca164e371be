-- ===== src/FsCache.antt =====
-- kernel/fs/fscache/fscache.c: the clock cache of disk blocks behind the FAT file system, for sectors
-- (`fs_*_512`) and for clusters (`fs_*_4k`). The two families are the same code but for the number
-- of sectors that a block has, so each is stated once over a `Device` whose blocks have that
-- size. A cache is its buffers, an array as a function of the index, and its clock head; `size` is
-- the number of buffers.
pub mod Disk
pub mod Victim
pub mod Coherent
pub mod Read
pub mod Clear
pub mod Dirty
mod Tests
use os_final_program.Base.{
  ℕ, zero, suc, ◌+◌, ◌-◌, ◌*◌, ◌/◌, ◌%◌, ◌^◌, ◌≤◌, ◌<◌, bit_and, bit_or, bit_xor, ◌≡◌, refl, sym,
  ap, ap₂, subst, ◌∙◌, ◌≢◌, ◌↔◌, ◌⊎◌, inl, inr, Bool, true, false, not, ◌&&◌, ◌||◌, Option, none,
  some, List, [], ◌∷◌, ◌++◌, map, arith, ltb, leb, ◌==◌, if◌then◌else◌, ltb→lt, lt→ltb, ==_iff,
  ==_refl, ==_ne, Bool-cases, Option-cases, length, get_or, set, replicate, length-append,
  length-set, length-replicate, get_or-set_self, get_or-set_ne, set-get_or, get_or-replicate,
  get_or-set, contains, contains-append, byte_test, byte_test-set, byte_test-clear, byte_test-shift,
  byte_bounds, u32, shr, shl, low_bits, sub32, word_max, page_align_up, page_align_down,
}
use Disk.{Device}

-- `cur` of a buffer that holds no block.
abbrev pub no_block : ℕ
no_block = 0xffffffff

-- `BUF_512` and `BUF_4K`.
pub record Buf (B : Type 0) : Type 0 where
  pub block : B
  pub cur : ℕ
  pub state : ℕ

-- `state & 0x01`, `state & 0x02`, `state &= 0xfe` and `state |= 0x01` of a state byte.
abbrev pub ref_bit : ℕ → ℕ
ref_bit s = s % 2

abbrev pub dirty_bit : ℕ → ℕ
dirty_bit s = s / 2 % 2

abbrev pub clear_ref : ℕ → ℕ
clear_ref s = s - s % 2

abbrev pub set_ref : ℕ → ℕ
set_ref s = s + 1 - s % 2

-- `if ((++(*clock_head)) >= size) *clock_head = 0;`
abbrev pub advance : ℕ → ℕ → ℕ
advance size head = if leb size (head + 1) then 0 else head + 1

module _ {B : Type 0} where
  abbrev pub update : (ℕ → Buf B) → ℕ → Buf B → ℕ → Buf B
  update bufs i b j = if i == j then b else bufs j

  -- Sweep 1, with the rounds that are left: the index it stops at, the buffers and the clock head.
  pub sweep_refs : ℕ → ℕ → (ℕ → Buf B) → ℕ → Option ℕ × (ℕ → Buf B) × ℕ
  sweep_refs size zero bufs head = (none, bufs, head)
  sweep_refs size (suc n) bufs head =
      let b = bufs head in
      let cleared = update bufs head (record b { state = clear_ref b.state }) in
      let next =
        sweep_refs size n (if ref_bit b.state == 0 then bufs else cleared) (advance size head) in
      if (ref_bit b.state == 0) && (dirty_bit b.state == 0) then (some head, bufs, head) else next

  -- Sweep 2: the first buffer that is not dirty.
  pub sweep_dirty : ℕ → ℕ → (ℕ → Buf B) → ℕ → Option ℕ × ℕ
  sweep_dirty size zero bufs head = (none, head)
  sweep_dirty size (suc n) bufs head =
      let next = sweep_dirty size n bufs (advance size head) in
      if dirty_bit (bufs head).state == 0 then (some head, head) else next

  second_sweep : ℕ → (ℕ → Buf B) → Option ℕ × ℕ → ℕ × (ℕ → Buf B) × ℕ
  second_sweep size bufs (some i, head) = (i, bufs, advance size head)
  second_sweep size bufs (none, head) = (head, bufs, advance size head)

  first_sweep : ℕ → Option ℕ × (ℕ → Buf B) × ℕ → ℕ × (ℕ → Buf B) × ℕ
  unfolding second_sweep sweep_dirty
  first_sweep size (some i, bufs, head) = (i, bufs, advance size head)
  first_sweep size (none, bufs, head) = second_sweep size bufs (sweep_dirty size size bufs head)

  -- The victim, the buffers after the sweeps and the clock head behind the victim.
  pub fs_victim : (ℕ → Buf B) → ℕ → ℕ → ℕ × (ℕ → Buf B) × ℕ
  unfolding first_sweep sweep_refs
  fs_victim bufs clock_head size = first_sweep size (sweep_refs size size bufs clock_head)

  -- The loop that looks for a block: the index of its buffer, or `size`.
  find_from : (ℕ → Buf B) → ℕ → ℕ → ℕ → ℕ
  find_from bufs a index zero = index
  find_from bufs a index (suc n) =
      let rest = find_from bufs a (index + 1) n in if (bufs index).cur == a then index else rest

  pub find_block : (ℕ → Buf B) → ℕ → ℕ → ℕ
  unfolding find_from
  find_block bufs a size = find_from bufs a 0 size

-- A cache over a device: the buffers, the clock head, and the disk behind them.
pub record Cache (d : Device) : Type 0 where
  pub bufs : ℕ → Buf (Device.B d)
  pub clock_head : ℕ
  pub disk : Device.St d

module _ (d : Device) where
  open d use {St, B, zeros, read, write}

  write_back : Buf B → Bool × St → Bool × Buf B × St
  write_back f (true, s) = (true, record f { state = ref_bit f.state }, s)
  write_back f (false, s) = (false, f, s)

  -- `true` for the result 0.
  pub fs_write : Buf B → St → Bool × Buf B × St
  unfolding write_back
  fs_write f s =
      if not (f.cur == no_block) && not (dirty_bit f.state == 0)
      then write_back f (write s f.cur f.block)
      else (true, f, s)

  -- The buffer that a transfer into `v` fills; on an error `cur` and `state` stay.
  fill : ℕ → ℕ → Buf B → (ℕ → Buf B) → ℕ → St → Bool × B → Option ℕ × Cache d
  fill a i v bufs head s (true, b) = (
    some i,
    record {
      bufs = update bufs i (record { block = b; cur = a; state = 1 });
      clock_head = head;
      disk = s;
    },
  )
  fill a i v bufs head s (false, b) =
      (none, record { bufs = update bufs i (record v { block = b }); clock_head = head; disk = s })

  replace : ℕ → ℕ → (ℕ → Buf B) → ℕ → Bool × Buf B × St → Option ℕ × Cache d
  unfolding fill
  replace a i bufs head (true, v, s) = fill a i v bufs head s (read s a v.block)
  replace a i bufs head (false, v, s) =
      (none, record { bufs = update bufs i v; clock_head = head; disk = s })

  fs_read_miss : ℕ → St → ℕ × (ℕ → Buf B) × ℕ → Option ℕ × Cache d
  unfolding replace fs_write
  fs_read_miss a s (i, bufs, head) = replace a i bufs head (fs_write (bufs i) s)

  fs_read_at : Cache d → ℕ → ℕ → ℕ → Option ℕ × Cache d
  unfolding fs_read_miss fs_victim
  fs_read_at c a size index =
      if index == size then fs_read_miss a c.disk (fs_victim c.bufs c.clock_head size) else (
        some index,
        record c {
          bufs =
              update c.bufs index (record (c.bufs index) { state = set_ref (c.bufs index).state });
        },
      )

  -- The index of the buffer that holds the block, or none for the result 0xffffffff.
  unfoldable pub fs_read : ℕ → Cache d → ℕ → ℕ → Option ℕ × Cache d
  unfolding fs_read_at find_block
  fs_read base_addr c first_sector size =
      let a = u32 (first_sector + base_addr) in fs_read_at c a size (find_block c.bufs a size)

  clear : ℕ → ℕ → (ℕ → Buf B) → ℕ → Bool × Buf B × St → Bool × Cache d
  clear a i bufs head (true, v, s) = (
    true,
    record {
      bufs = update bufs i (record { block = zeros; cur = a; state = 0 });
      clock_head = head;
      disk = s;
    },
  )
  clear a i bufs head (false, v, s) =
      (false, record { bufs = update bufs i v; clock_head = head; disk = s })

  fs_clr_victim : ℕ → St → ℕ × (ℕ → Buf B) × ℕ → Bool × Cache d
  unfolding clear fs_write
  fs_clr_victim a s (i, bufs, head) = clear a i bufs head (fs_write (bufs i) s)

  -- A victim becomes an empty block at address `cur`, with no read from the disk.
  pub fs_clr : Cache d → ℕ → ℕ → Bool × Cache d
  unfolding fs_clr_victim fs_victim
  fs_clr c size cur = fs_clr_victim cur c.disk (fs_victim c.bufs c.clock_head size)
