-- ===== src/Fat.antt =====
-- kernel/fs/fat/fat.c and kernel/fs/fat/utils.c: the file allocation table of the older file system, through its
-- cache of two sectors.
use os_final_program.Base.{
  ℕ, zero, suc, ◌+◌, ◌-◌, ◌*◌, ◌/◌, ◌%◌, ◌^◌, ◌≤◌, ◌<◌, bit_and, bit_or, bit_xor, ◌≡◌, refl, sym,
  ap, ap₂, subst, ◌∙◌, ◌≢◌, ◌↔◌, ◌⊎◌, inl, inr, Bool, true, false, not, ◌&&◌, ◌||◌, Option, none,
  some, List, [], ◌∷◌, ◌++◌, map, arith, ltb, leb, ◌==◌, if◌then◌else◌, ltb→lt, lt→ltb, ==_iff,
  ==_refl, ==_ne, Bool-cases, Option-cases, length, get_or, set, replicate, length-append,
  length-set, length-replicate, get_or-set_self, get_or-set_ne, set-get_or, get_or-replicate,
  get_or-set, contains, contains-append, byte_test, byte_test-set, byte_test-clear, byte_test-shift,
  byte_bounds, u32, shr, shl, low_bits, sub32, word_max, page_align_up, page_align_down, flip,
  bit_and-flip, bit_xor-one, bit_and_double, bit_xor_double, bit_or-disjoint,
}
use os_final_program.FsCache.Disk.{Device}
use os_final_program.FsCache.{Buf, Cache, update, fs_read}
use os_final_program.Bytes.{get_u32, set_u32}
pub mod Disk
pub mod Entries
pub mod Modify
pub mod Search
pub mod Alloc
mod Tests
use Disk.{Sectors, fat_device}

abbrev pub fat_buf_num : ℕ
fat_buf_num = 2

-- What `init_fs` reads from the disk: `fat_info`, with the fields of its BPB that are used.
pub record FatInfo : Type 0 where
  pub base_addr : ℕ
  pub total_data_clusters : ℕ
  pub first_data_sector : ℕ
  pub sectors_per_cluster : ℕ
  pub reserved_sectors : ℕ
  pub num_of_sectors_per_fat : ℕ

-- The loop of `fs_wa`, with the rounds that are left.
wa_from : ℕ → ℕ → ℕ → ℕ
wa_from zero num i = i
wa_from (suc n) num i = let rest = wa_from n (shr num 1) (i + 1) in if ltb 1 num then rest else i

-- The place of the highest bit.
pub fs_wa : ℕ → ℕ
unfolding wa_from
fs_wa num = wa_from 32 num 0

pub fs_dataclus2sec : FatInfo → ℕ → ℕ
unfolding fs_wa
fs_dataclus2sec g clus =
    u32 (shl (sub32 clus 2) (fs_wa g.sectors_per_cluster) + g.first_data_sector)

pub fs_sec2dataclus : FatInfo → ℕ → ℕ
unfolding fs_wa
fs_sec2dataclus g sec = u32 (shr (sub32 sec g.first_data_sector) (fs_wa g.sectors_per_cluster) + 2)

-- The sector of a cluster's entry, and its offset there.
pub cluster_to_fat_entry : FatInfo → ℕ → ℕ × ℕ
cluster_to_fat_entry g clus =
    (u32 (g.reserved_sectors + shr (shl clus 2) 9 + g.base_addr), low_bits (shl clus 2) 9)

abbrev pub fat_sector : FatInfo → ℕ → ℕ
fat_sector g clus = (cluster_to_fat_entry g clus).0

abbrev pub fat_offset : FatInfo → ℕ → ℕ
fat_offset g clus = (cluster_to_fat_entry g clus).1

-- The table's sectors on the disk.
abbrev pub table_device : Sectors → FatInfo → Device
table_device d g = fat_device d (g.reserved_sectors + g.base_addr) g.num_of_sectors_per_fat

abbrev pub no_cluster : ℕ
no_cluster = 0xffffffff

-- The highest four bits of a word stay.
abbrev pub new_entry : ℕ → ℕ → ℕ
new_entry old value = bit_or (old / 2 ^ 28 * 2 ^ 28) (low_bits value 28)

module _ (d : Sectors) (g : FatInfo) where
  abbrev FatCache : Type 0
  FatCache = Cache (table_device d g)

  -- The index of the buffer with the sector, or none on an error: as `fs_read_512`, but a dirty victim
  -- goes to both tables.
  pub read_fat_sector : FatCache → ℕ → Option ℕ × FatCache
  read_fat_sector c sec = fs_read (table_device d g) 0 c sec fat_buf_num

  entry_value : ℕ → Option ℕ × FatCache → Option ℕ × FatCache
  entry_value offset (none, c) = (none, c)
  entry_value offset (some i, c) = (some (low_bits (get_u32 (c.bufs i).block offset) 28), c)

  -- The entry of a cluster, none on an error.
  pub get_fat_entry_value : FatCache → ℕ → Option ℕ × FatCache
  unfolding entry_value read_fat_sector
  get_fat_entry_value c clus =
      entry_value (fat_offset g clus) (read_fat_sector c (fat_sector g clus))

  pub set_entry : ℕ → ℕ → Option ℕ × FatCache → Bool × FatCache
  set_entry offset value (none, c) = (false, c)
  set_entry offset value (some i, c) = (
    true,
    record c {
      bufs = update c.bufs i (record (c.bufs i) {
        state = 3;
        block = set_u32 (c.bufs i).block offset (new_entry (get_u32 (c.bufs i).block offset) value);
      });
    },
  )

  -- `true` for the result 0.
  pub fs_modify_fat : FatCache → ℕ → ℕ → Bool × FatCache
  unfolding set_entry read_fat_sector
  fs_modify_fat c clus value =
      set_entry (fat_offset g clus) value (read_fat_sector c (fat_sector g clus))

  -- What a round of the loop of `fs_next_free` does with the entry of `clus`.
  free_round : ℕ → (FatCache → Option ℕ × FatCache) → Option ℕ × FatCache → Option ℕ × FatCache
  free_round clus rest (none, c) = (none, c)
  free_round clus rest (some value, c) = if value == 0 then (some clus, c) else rest c

  next_free_from : ℕ → FatCache → ℕ → Option ℕ × FatCache
  unfolding free_round get_fat_entry_value
  next_free_from zero c clus = (some no_cluster, c)
  next_free_from (suc n) c clus =
      free_round clus (λ c'. next_free_from n c' (clus + 1)) (get_fat_entry_value c clus)

  -- The first free cluster from `start` on or `no_cluster`; none on an error.
  pub fs_next_free : FatCache → ℕ → Option ℕ × FatCache
  unfolding next_free_from
  fs_next_free c start = next_free_from (g.total_data_clusters + 2 - start) c start
