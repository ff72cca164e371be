-- ===== src/Fat/Tests.antt =====
-- A table of two sectors on an empty disk.
use os_final_program.Base.{
  ℕ, zero, suc, ◌+◌, ◌-◌, ◌<◌, ◌≡◌, refl, inr, true, List, [], arith, ◌==◌, if◌then◌else◌, ==_refl,
  ==_ne, get_or, replicate, low_bits,
}
use os_final_program.Buddy.{put_at}
use os_final_program.FsCache.{no_block, fs_read}
use os_final_program.Bytes.{get_u32, set_u32}
use os_final_program.FsCache.Coherent.{Shows}
use os_final_program.Fat.Disk.{Sectors, InTable}
use os_final_program.Fat.{
  FatInfo, FatCache, cluster_to_fat_entry, fs_modify_fat, get_fat_entry_value, fs_next_free, fs_wa,
  fs_dataclus2sec, fs_sec2dataclus,
}
use os_final_program.Fat.Modify.{fs_modify_fat-get_fat_entry_value}
use os_final_program.Fat.Entries.{Entry, InFat, FatWf, SameEntries}
use os_final_program.Fat.Alloc.{fs_alloc}
use os_final_program.Fat.Alloc.Taken.{ErasesOutside, Taken}
use os_final_program.Fat.Alloc.Allocates.{fs_alloc-Taken}
use os_final_program.Fat.Search.{FirstFree, fs_next_free-FirstFree}

abbrev memory : Sectors
memory = record {
  St = ℕ → List ℕ;
  read = λ s a b. (true, s a);
  write = λ s a b. (true, put_at s a b);
  read-write = λ s a b c ok. rw (==_refl a) refl;
  read-write_ne = λ s a a' b c n. rw (==_ne a a' n) refl;
  read_same = λ s a b c ok. refl;
}

abbrev small_disk : FatInfo
small_disk = record {
  base_addr = 0;
  total_data_clusters = 4;
  first_data_sector = 5;
  sectors_per_cluster = 8;
  reserved_sectors = 1;
  num_of_sectors_per_fat = 2;
}

abbrev empty_table : FatCache memory small_disk
empty_table = record {
  bufs = λ i. record { block = []; cur = no_block; state = 0 };
  clock_head = 0;
  disk = λ a. replicate 512 0;
}

empty_table-FatWf : FatWf memory small_disk empty_table
empty_table-FatWf = record {
  coherent = record {
    grid = λ i l u. absurd (u refl);
    distinct = λ i j l m u e. absurd (u refl);
    clean = λ i l u n b. absurd (u refl);
  };
  head_in_range = omega arith;
}

in_small : (k : ℕ) → k < 128 → InFat memory small_disk k
unfolding InTable cluster_to_fat_entry
in_small k l =
    (omega (arith, l), (omega arith, omega (arith, l), omega arith), λ e. omega (arith, l, e))

-- Every byte of the disk is 0.
zero_byte : (n i : ℕ) → get_or {A = ℕ} (replicate n 0) i 0 ≡ 0
zero_byte zero i = refl
zero_byte (suc n) zero = refl
zero_byte (suc n) (suc i) = zero_byte n i

zero_word : (i : ℕ) → low_bits (get_u32 (replicate 512 0) i) 28 ≡ 0
unfolding get_u32
zero_word i =
    rw (zero_byte 512 i, zero_byte 512 (i + 1), zero_byte 512 (i + 2), zero_byte 512 (i + 3)) refl

unwritten : (k : ℕ) → Entry memory small_disk empty_table k 0
unfolding Entry Shows cluster_to_fat_entry
unwritten k = (replicate 512 0, inr (λ i l e. omega (arith, e), λ b. refl), refl, zero_word _)

-- Clusters of eight sectors, after five others.
sector_of_cluster : (fs_dataclus2sec small_disk 4 ≡ 21) × (fs_sec2dataclus small_disk 21 ≡ 4)
unfolding fs_dataclus2sec fs_sec2dataclus fs_wa
sector_of_cluster = (refl, refl)

fs_modify_fat-get_fat_entry_value_example :
    (7 ≡ (if 3 == 3 then low_bits 7 28 else 0))
    × FatWf memory small_disk
        (get_fat_entry_value memory small_disk
          (fs_modify_fat memory small_disk empty_table 3 7).1
          3).1
unfolding fs_modify_fat get_fat_entry_value fs_read get_u32 set_u32 cluster_to_fat_entry
fs_modify_fat-get_fat_entry_value_example =
    fs_modify_fat-get_fat_entry_value memory small_disk empty_table 3 7 0 3 0 7 empty_table-FatWf
      (in_small 3 (omega arith)) (in_small 3 (omega arith)) (unwritten 3) (unwritten 3) refl refl

fs_next_free-FirstFree_example :
    FirstFree memory small_disk (λ k. 0) 2 (4 + 2 - 2) 2
    × SameEntries memory small_disk empty_table (fs_next_free memory small_disk empty_table 2).1
unfolding fs_next_free fs_read get_u32 cluster_to_fat_entry
fs_next_free-FirstFree_example =
    fs_next_free-FirstFree memory small_disk (λ k. 0) empty_table 2 2 empty_table-FatWf
      (λ k l m. (in_small k (omega (arith, m)), unwritten k)) refl

-- The next free cluster is 3, of 4 that are free.
abbrev fs_info : List ℕ
fs_info = set_u32 (set_u32 (replicate 512 0) 488 4) 492 2

erases_outside : ErasesOutside memory small_disk
unfolding fs_dataclus2sec fs_wa
erases_outside k l m = (omega (arith, l, m), inr (omega (arith, l, m)))

fs_alloc-Taken_example :
    ◌≡◌ {A = ℕ} 0 0
    × Taken memory small_disk
        (λ k. 0)
        3
        fs_info
        (fs_alloc memory small_disk (empty_table, fs_info)).1
unfolding fs_alloc fs_read get_u32 set_u32 cluster_to_fat_entry fs_dataclus2sec fs_wa fs_modify_fat
    fs_next_free
fs_alloc-Taken_example =
    fs_alloc-Taken memory small_disk (omega arith) erases_outside (λ k. 0) empty_table fs_info 3
      empty_table-FatWf (λ k l m. (in_small k (omega (arith, m)), unwritten k)) refl
      (λ h. (omega arith, refl)) refl
