-- ===== src/VfsFile.antt =====
-- `generic_file_read` of kernel/vfs/read_write.c, over the pages of a file: `page` gives the contents of a page
-- of the file as `bmap`, the page cache and `readpage` supply it, none where they fail.
use os_final_program.Base.{
  ℕ, zero, suc, ◌+◌, ◌-◌, ◌*◌, ◌/◌, ◌%◌, ◌^◌, ◌≤◌, ◌<◌, bit_and, bit_or, bit_xor, ◌≡◌, refl, sym,
  ap, ap₂, subst, ◌∙◌, ◌≢◌, ◌↔◌, ◌⊎◌, inl, inr, Bool, true, false, not, ◌&&◌, ◌||◌, Option, none,
  some, List, [], ◌∷◌, ◌++◌, map, arith, ltb, leb, ◌==◌, if◌then◌else◌, ltb→lt, lt→ltb, ==_iff,
  ==_refl, ==_ne, Bool-cases, Option-cases, length, get_or, set, replicate, length-append,
  length-set, length-replicate, get_or-set_self, get_or-set_ne, set-get_or, get_or-replicate,
  get_or-set, contains, contains-append, byte_test, byte_test-set, byte_test-clear, byte_test-shift,
  byte_bounds, u32, shr, shl, low_bits, sub32, word_max, page_align_up, page_align_down, flip,
  bit_and-flip, bit_xor-one, bit_and_double, bit_xor_double, bit_or-disjoint,
}
pub mod Limit
pub mod Reads
mod Tests

-- The `n` bytes from `a` on.
pub bytes : (ℕ → ℕ) → ℕ → ℕ → List ℕ
bytes f a zero = []
bytes f a (suc n) = f a ∷ bytes f (a + 1) n

-- Where a read starts and ends: the page and the offset there.
pub record Range : Type 0 where
  pub start_page : ℕ
  pub start_cur : ℕ
  pub end_page : ℕ
  pub end_cur : ℕ

-- The first byte that is not read.
pub read_limit : ℕ → ℕ → ℕ → ℕ
read_limit i_size pos count = if ltb (u32 (pos + count)) i_size then u32 (pos + count) else i_size

pub read_range : ℕ → ℕ → ℕ → ℕ → Range
unfolding read_limit
read_range blksize i_size pos count = record {
  start_page = pos / blksize;
  start_cur = pos % blksize;
  end_page = read_limit i_size pos count / blksize;
  end_cur = read_limit i_size pos count % blksize;
}

module _ (blksize : ℕ) (page : ℕ → Option (ℕ → ℕ)) (r : Range) where
  -- What is copied of a page.
  pub copy_page : ℕ → (ℕ → ℕ) → List ℕ
  unfolding bytes
  copy_page page_no contents =
      if page_no == r.start_page
      then bytes contents r.start_cur (
          if r.start_page == r.end_page
          then sub32 r.end_cur r.start_cur
          else sub32 blksize r.start_cur)
      else if page_no == r.end_page
      then bytes contents 0 r.end_cur
      else bytes contents 0 blksize

  copied : ℕ → Option (ℕ → ℕ) → List ℕ → List ℕ
  unfolding copy_page
  copied page_no none rest = []
  copied page_no (some contents) rest = copy_page page_no contents ++ rest

  -- The loop over the pages, of which `n` are left; it ends at a page that fails.
  pub read_pages : ℕ → ℕ → List ℕ
  unfolding copied
  read_pages zero page_no = []
  read_pages (suc n) page_no = copied page_no (page page_no) (read_pages n (page_no + 1))

-- The bytes that are put into `buf`.
pub generic_file_read : ℕ → ℕ → (ℕ → Option (ℕ → ℕ)) → ℕ → ℕ → List ℕ
unfolding read_pages read_range
generic_file_read blksize i_size page pos count =
    let r = read_range blksize i_size pos count in
    read_pages blksize page r (r.end_page + 1 - r.start_page) r.start_page
