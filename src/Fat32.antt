-- ===== src/Fat32.antt =====
-- kernel/vfs/fat32.c: the clusters of an inode. `sectors` is what the disk holds, whose reads are taken to
-- succeed, as `read_fat` does; an address is that of a sector.
use os_final_program.Base.{
  ℕ, zero, suc, ◌+◌, ◌-◌, ◌*◌, ◌/◌, ◌%◌, ◌^◌, ◌≤◌, ◌<◌, bit_and, bit_or, bit_xor, ◌≡◌, refl, sym,
  ap, ap₂, subst, ◌∙◌, ◌≢◌, ◌↔◌, ◌⊎◌, inl, inr, Bool, true, false, not, ◌&&◌, ◌||◌, Option, none,
  some, List, [], ◌∷◌, ◌++◌, map, arith, ltb, leb, ◌==◌, if◌then◌else◌, ltb→lt, lt→ltb, ==_iff,
  ==_refl, ==_ne, Bool-cases, Option-cases, length, get_or, set, replicate, length-append,
  length-set, length-replicate, get_or-set_self, get_or-set_ne, set-get_or, get_or-replicate,
  get_or-set, contains, contains-append, byte_test, byte_test-set, byte_test-clear, byte_test-shift,
  byte_bounds, u32, shr, shl, low_bits, sub32, word_max, page_align_up, page_align_down, flip,
  bit_and-flip, bit_xor-one, bit_and_double, bit_xor_double, bit_or-disjoint,
}
use os_final_program.Bytes.{get_u32}
pub mod Chain
mod Tests

-- The parts of `fat32_basic_information` and `struct inode` that are used here.
pub record Volume : Type 0 where
  pub fat_base : ℕ
  pub data_sec : ℕ
  pub blksize : ℕ

abbrev pub end_of_chain : ℕ
end_of_chain = 0x0fffffff

module _ (v : Volume) (sectors : ℕ → List ℕ) where
  -- The entry of a cluster.
  pub read_fat : ℕ → ℕ
  read_fat index = get_u32 (sectors (u32 (v.fat_base + shr index 7))) (low_bits index 7 * 4)

  -- The loop that counts `i_blocks`; none when the rounds do not reach the end of the chain.
  pub count_blocks : ℕ → ℕ → ℕ → Option ℕ
  unfolding read_fat
  count_blocks zero clu blocks = none
  count_blocks (suc n) clu blocks =
      let rest = count_blocks n (read_fat clu) (blocks + 1) in
      if clu == end_of_chain then some blocks else rest

  -- `a_page` of the root directory, as `init_fat32` fills it.
  pub root_pages : ℕ → ℕ → List ℕ
  unfolding read_fat
  root_pages zero clu = []
  root_pages (suc n) clu = clu ∷ root_pages n (read_fat clu)

  -- `a_page` of an inode, as `fat32_inode_lookup` fills it: `addr = (new_inode, addr)` leaves `addr`.
  pub lookup_pages : ℕ → ℕ → List ℕ
  lookup_pages zero addr = []
  lookup_pages (suc n) addr = addr ∷ lookup_pages n addr

  -- The first sector of a page, in `fat32_readpage` and `fat32_writepage`.
  pub page_sector : ℕ → ℕ
  page_sector location = u32 (v.data_sec + sub32 location 2 * (v.blksize / 512))

-- `fat32_bmap`.
pub fat32_bmap : List ℕ → ℕ → ℕ
fat32_bmap a_page page_no = get_or a_page page_no 0
