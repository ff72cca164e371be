-- ===== src/Fat/Alloc.antt =====
-- `fs_alloc` of kernel/fs/fat/fat.c, with the FSInfo sector that is kept in `fat_fs_info`.
pub mod Erase
pub mod Taken
pub mod Allocates
use os_final_program.Base.{
  ℕ, zero, suc, ◌+◌, ◌-◌, ◌*◌, ◌/◌, ◌%◌, ◌^◌, ◌≤◌, ◌<◌, bit_and, bit_or, bit_xor, ◌≡◌, refl, sym,
  ap, ap₂, subst, ◌∙◌, ◌≢◌, ◌↔◌, ◌⊎◌, inl, inr, Bool, true, false, not, ◌&&◌, ◌||◌, Option, none,
  some, List, [], ◌∷◌, ◌++◌, map, arith, ltb, leb, ◌==◌, if◌then◌else◌, ltb→lt, lt→ltb, ==_iff,
  ==_refl, ==_ne, Bool-cases, Option-cases, length, get_or, set, replicate, length-append,
  length-set, length-replicate, get_or-set_self, get_or-set_ne, set-get_or, get_or-replicate,
  get_or-set, contains, contains-append, byte_test, byte_test-set, byte_test-clear, byte_test-shift,
  byte_bounds, u32, shr, shl, low_bits, sub32, word_max, page_align_up, page_align_down, flip,
  bit_and-flip, bit_xor-one, bit_and_double, bit_xor_double, bit_or-disjoint,
}
use os_final_program.FsCache.{Cache}
use os_final_program.Bytes.{get_u32, set_u32}
use os_final_program.Fat.Disk.{Sectors}
use os_final_program.Fat.{FatInfo, FatCache, fs_modify_fat, fs_next_free, fs_dataclus2sec}

-- `FSI_Free_Count` and `FSI_Nxt_Free`.
abbrev pub free_count : List ℕ → ℕ
free_count info = get_u32 info 488

abbrev pub nxt_free : List ℕ → ℕ
nxt_free info = get_u32 info 492

module _ (d : Sectors) where
  open d use {St, write}

  next_erase : (St → Bool × St) → Bool × St → Bool × St
  next_erase rest (true, s) = rest s
  next_erase rest (false, s) = (false, s)

  -- The write of `n` empty sectors.
  pub erase : ℕ → St → ℕ → Bool × St
  unfolding next_erase
  erase zero s a = (true, s)
  erase (suc n) s a = next_erase (λ s'. erase n s' (u32 (a + 1))) (write s a (replicate 512 0))

  module _ (g : FatInfo) where
    -- The cache, and the FSInfo sector in memory.
    abbrev pub FatState : Type 0
    FatState = FatCache d g × List ℕ

    erased : ℕ → FatCache d g → List ℕ → Bool × St → Option ℕ × FatState
    erased clus c info (true, s) = (some clus, (record c { disk = s }, info))
    erased clus c info (false, s) = (none, (record c { disk = s }, info))

    -- After the search for the next free cluster.
    advance_free : ℕ → List ℕ → Option ℕ × FatCache d g → Option ℕ × FatState
    unfolding erased erase
    advance_free clus info (none, c) = (none, (c, info))
    advance_free clus info (some next_free, c) =
        if ltb (g.total_data_clusters + 1) next_free
        then (none, (c, info))
        else erased clus c (set_u32 info 492 (sub32 next_free 1))
            (erase g.sectors_per_cluster c.disk (fs_dataclus2sec g clus))

    after_modify : ℕ → List ℕ → Bool × FatCache d g → Option ℕ × FatState
    unfolding advance_free
    after_modify clus info (false, c) = (none, (c, info))
    after_modify clus info (true, c) = advance_free clus info (fs_next_free d g c clus)

    -- From `FAT allocated and update FSI_Nxt_Free` on.
    pub alloc_at : FatState → ℕ → Option ℕ × FatState
    unfolding after_modify
    alloc_at (c, info) clus = after_modify clus info (fs_modify_fat d g c clus 0xffffffff)

    alloc_modified : ℕ → List ℕ → Bool × FatCache d g → Option ℕ × FatState
    unfolding alloc_at
    alloc_modified clus info (false, c) = (none, (c, info))
    alloc_modified clus info (true, c) = alloc_at (c, info) clus

    alloc_found : List ℕ → Option ℕ × FatCache d g → Option ℕ × FatState
    unfolding alloc_modified
    alloc_found info (none, c) = (none, (c, info))
    alloc_found info (some clus, c) = alloc_modified clus info (fs_modify_fat d g c clus 0xffffffff)

    -- The new cluster, none on an error.
    unfoldable pub fs_alloc : FatState → Option ℕ × FatState
    unfolding alloc_at alloc_found
    fs_alloc (c, info) =
        let clus = u32 (nxt_free info + 1) in
        if ltb (u32 (free_count info + 1)) clus
        then alloc_found info (fs_next_free d g c 2)
        else alloc_at (c, info) clus
