-- ===== src/Paging.antt =====
-- kernel/pc/page.c and include/zjunix/page.h: the page tables of an address space, of two levels. The tables are
-- `pgd`, the first one, and `tables`, the words behind the address of each second one; `calls` counts
-- the calls of `kmalloc`, and the parameter `kmalloc` gives the result of each of them.
use os_final_program.Base.{
  ℕ, zero, suc, ◌+◌, ◌-◌, ◌*◌, ◌/◌, ◌%◌, ◌^◌, ◌≤◌, ◌<◌, bit_and, bit_or, bit_xor, ◌≡◌, refl, sym,
  ap, ap₂, subst, ◌∙◌, ◌≢◌, ◌↔◌, ◌⊎◌, inl, inr, Bool, true, false, not, ◌&&◌, ◌||◌, Option, none,
  some, List, [], ◌∷◌, ◌++◌, map, arith, ltb, leb, ◌==◌, if◌then◌else◌, ltb→lt, lt→ltb, ==_iff,
  ==_refl, ==_ne, Bool-cases, Option-cases, length, get_or, set, replicate, length-append,
  length-set, length-replicate, get_or-set_self, get_or-set_ne, set-get_or, get_or-replicate,
  get_or-set, contains, contains-append, byte_test, byte_test-set, byte_test-clear, byte_test-shift,
  byte_bounds, u32, shr, shl, low_bits, sub32, word_max, page_align_up, page_align_down, flip,
  bit_and-flip, bit_xor-one, bit_and_double, bit_xor_double, bit_or-disjoint,
}
use os_final_program.Buddy.{put_at}
pub mod Walk
pub mod OneMapping
pub mod Mapping
mod Tests

pub record Tables : Type 0 where
  pub pgd : ℕ → ℕ
  pub tables : ℕ → ℕ → ℕ
  pub calls : ℕ

abbrev pub pgd_shift : ℕ
pgd_shift = 22

abbrev pub pde_index : ℕ → ℕ
pde_index va = shr va pgd_shift

abbrev pub pte_index : ℕ → ℕ
pte_index va = low_bits (shr va 12) 10

-- The table is at `pde`; `old` is the entry of the first table that leads to it.
pub write_entry : Tables → ℕ → ℕ → ℕ → ℕ → ℕ → Tables
write_entry t pde old va pa attr = record t {
  pgd = put_at t.pgd (pde_index va) (bit_or (page_align_down old) attr);
  tables =
      put_at t.tables pde (put_at (t.tables pde) (pte_index va) (bit_or (page_align_down pa) attr));
}

module _ (kmalloc : ℕ → ℕ) where
  -- The second table is allocated and cleared; 1 if there is no memory.
  pub new_table : Tables → ℕ → ℕ → ℕ → ℕ → ℕ × Tables
  unfolding write_entry
  new_table t pde va pa attr = if pde == 0 then (1, record t { calls = t.calls + 1 }) else (
    0,
    write_entry (record t { calls = t.calls + 1; tables = put_at t.tables pde (λ j. 0) }) pde pde va
        pa attr,
  )

  -- 0, or 1 on an error.
  pub do_one_mapping : Tables → ℕ → ℕ → ℕ → ℕ × Tables
  unfolding new_table write_entry
  do_one_mapping t va pa attr =
      let pde = page_align_down (t.pgd (pde_index va)) in
      if pde == 0
      then new_table t (kmalloc t.calls) va pa attr
      else (0, write_entry t pde (t.pgd (pde_index va)) va pa attr)

  -- The loop of `do_mapping` goes on after the result 0.
  next_mapping : (Tables → ℕ × Tables) → ℕ × Tables → ℕ × Tables
  next_mapping rest (zero, t) = rest t
  next_mapping rest (suc e, t) = (1, t)

  -- `npage` pages from `va` on.
  pub do_mapping : Tables → ℕ → ℕ → ℕ → ℕ → ℕ × Tables
  unfolding do_one_mapping next_mapping
  do_mapping t va zero pa attr = (0, t)
  do_mapping t va (suc n) pa attr =
      next_mapping (λ t'. do_mapping t' (u32 (va + 4096)) n (u32 (pa + 4096)) attr)
        (do_one_mapping t va pa attr)
