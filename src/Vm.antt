-- ===== src/Vm.antt =====
-- kernel/vm/vm.c and include/zjunix/vm.h: the regions of a process's address space. `Mm` holds the fields
-- of `struct mm_struct` that the region functions use, and the store of `struct vma_struct`, a
-- function of the pointer; 0 is the null pointer. A region that is given back with `kfree` stays
-- readable in the store, as it does in memory until the block is used again. What `kmalloc`
-- returns is an argument. Addresses and `map_count` are 32-bit words. Loops along `vm_next` take fuel, one unit
-- for a region and one for the end; `none` says that it did not suffice.
pub mod Chain
pub mod Lookup
pub mod Insert
pub mod Unmap
mod Tests
use os_final_program.Base.{
  ℕ, zero, suc, ◌+◌, ◌-◌, ◌*◌, ◌/◌, ◌%◌, ◌^◌, ◌≤◌, ◌<◌, bit_and, bit_or, bit_xor, ◌≡◌, refl, sym,
  ap, ap₂, subst, ◌∙◌, ◌≢◌, ◌↔◌, ◌⊎◌, inl, inr, Bool, true, false, not, ◌&&◌, ◌||◌, Option, none,
  some, List, [], ◌∷◌, ◌++◌, map, arith, ltb, leb, ◌==◌, if◌then◌else◌, ltb→lt, lt→ltb, ==_iff,
  ==_refl, ==_ne, Bool-cases, Option-cases, length, get_or, set, replicate, length-append,
  length-set, length-replicate, get_or-set_self, get_or-set_ne, set-get_or, get_or-replicate,
  get_or-set, contains, contains-append, byte_test, byte_test-set, byte_test-clear, byte_test-shift,
  byte_bounds, u32, shr, shl, low_bits, sub32, word_max, page_align_up, page_align_down,
}
use mathlib.Core.Option

pub record Vma : Type 0 where
  pub vm_start : ℕ
  pub vm_end : ℕ
  pub vm_next : ℕ

pub record Mm : Type 0 where
  pub mmap : ℕ
  pub mmap_cache : ℕ
  pub map_count : ℕ
  pub vmas : ℕ → Vma

abbrev pub kernel_entry : ℕ
kernel_entry = 0x80000000

abbrev pub write_vma : (ℕ → Vma) → ℕ → Vma → ℕ → Vma
write_vma h p v q = if p == q then v else h q

-- `while (vma)` up to the first region that ends above `addr`: that region and the one before it.
pub walk_above : (ℕ → Vma) → ℕ → ℕ → ℕ → ℕ → Option (ℕ × ℕ)
walk_above h addr zero prev p = none
walk_above h addr (suc n) prev p =
    let rest = walk_above h addr n p (h p).vm_next in
    if p == 0 then some (0, prev) else if ltb addr (h p).vm_end then some (p, prev) else rest

-- A region that the walk finds becomes the cached one.
cache_found : Mm → Option (ℕ × ℕ) → Option (ℕ × ℕ) × Mm
cache_found mm none = (none, mm)
cache_found mm (some (p, prev)) =
    (some (p, prev), if p == 0 then mm else record mm { mmap_cache = p })

pub find_vma_and_prev : ℕ → Mm → ℕ → Option (ℕ × ℕ) × Mm
unfolding cache_found walk_above
find_vma_and_prev fuel mm addr = cache_found mm (walk_above mm.vmas addr fuel 0 mm.mmap)

abbrev in_vma : Vma → ℕ → Bool
in_vma v addr = ltb addr v.vm_end && leb v.vm_start addr

first_of_pair : Option (ℕ × ℕ) → Option ℕ
first_of_pair none = none
first_of_pair (some (p, prev)) = some p

pub find_vma : ℕ → Mm → ℕ → Option ℕ × Mm
unfolding find_vma_and_prev first_of_pair
find_vma fuel mm addr =
    let c = mm.mmap_cache in
    let (r, mm') = find_vma_and_prev fuel mm addr in
    if not (c == 0) && in_vma (mm.vmas c) addr then (some c, mm) else (first_of_pair r, mm')

-- 1 if the region that is found starts at or below the address.
is_in_found : Mm → ℕ → Option ℕ → Option Bool
is_in_found mm addr none = none
is_in_found mm addr (some p) =
    some (if p == 0 then false else if ltb addr (mm.vmas p).vm_start then false else true)

pub is_in_vma : ℕ → Mm → ℕ → Option Bool × Mm
unfolding is_in_found find_vma
is_in_vma fuel mm addr = let (r, mm') = find_vma fuel mm addr in (is_in_found mm addr r, mm')

intersect : Mm → ℕ → Option ℕ → Option ℕ
intersect mm end_addr none = none
intersect mm end_addr (some p) =
    some (if not (p == 0) && leb end_addr (mm.vmas p).vm_start then 0 else p)

pub find_vma_intersection : ℕ → Mm → ℕ → ℕ → Option ℕ × Mm
unfolding intersect find_vma
find_vma_intersection fuel mm start_addr end_addr =
    let (r, mm') = find_vma fuel mm start_addr in (intersect mm end_addr r, mm')

-- The loop of `get_unmapped_area` from region `p` on; `-1` is `word_max`.
pub walk_gaps : (ℕ → Vma) → ℕ → ℕ → ℕ → ℕ → Option ℕ
walk_gaps h len zero addr p = none
walk_gaps h len (suc n) addr p =
    let rest = walk_gaps h len n (h p).vm_end (h p).vm_next in
    if ltb kernel_entry (u32 (addr + len))
    then some word_max
    else if (p == 0) || leb (u32 (addr + len)) (h p).vm_start
    then some addr
    else rest

gaps_from : ℕ → Mm → ℕ → ℕ → Option ℕ → Option ℕ
unfolding walk_gaps
gaps_from fuel mm addr len none = none
gaps_from fuel mm addr len (some p) = walk_gaps mm.vmas len fuel addr p

pub get_unmapped_area : ℕ → Mm → ℕ → ℕ → Option ℕ × Mm
unfolding gaps_from find_vma
get_unmapped_area fuel mm addr0 len =
    let addr = page_align_up addr0 in
    let (r, mm') = find_vma fuel mm addr in
    if ltb kernel_entry (u32 (addr + len))
    then (some word_max, mm)
    else if not (addr == 0) && leb (u32 (addr + len)) kernel_entry
    then (gaps_from fuel mm addr len r, mm')
    else (some 0, mm)

-- The last region that starts at or below `addr`.
pub find_vma_prepare : (ℕ → Vma) → ℕ → ℕ → ℕ → ℕ → Option ℕ
find_vma_prepare h addr zero prev p = none
find_vma_prepare h addr (suc n) prev p =
    let rest = find_vma_prepare h addr n p (h p).vm_next in
    if p == 0 then some prev else if ltb addr (h p).vm_start then some prev else rest

-- The region `area` goes behind `prev`, or becomes the whole list.
pub link_vma : Mm → ℕ → Option ℕ → Option Mm
link_vma mm area none = none
link_vma mm area (some prev) =
    let h = mm.vmas in
    let alone = write_vma h area (record (h area) { vm_next = 0 }) in
    let linked = write_vma h area (record (h area) { vm_next = (h prev).vm_next }) in
    let behind = write_vma linked prev (record (linked prev) { vm_next = area }) in
    some (
      if prev == 0
      then record mm { mmap = area; vmas = alone; map_count = u32 (mm.map_count + 1) }
      else record mm { vmas = behind; map_count = u32 (mm.map_count + 1) })

pub insert_vma_struct : ℕ → Mm → ℕ → Option Mm
unfolding link_vma find_vma_prepare
insert_vma_struct fuel mm area =
    link_vma mm area (find_vma_prepare mm.vmas (mm.vmas area).vm_start fuel 0 mm.mmap)

-- A new region at `new`, from `addr` on.
map_at : ℕ → Mm → ℕ → ℕ → Option ℕ → Option (ℕ × Mm)
unfolding insert_vma_struct
map_at fuel mm len new none = none
map_at fuel mm len new (some addr) =
    if new == 0
    then some (word_max, mm)
    else (let v : Vma = record {
      vm_start = addr;
      vm_end = page_align_up (u32 (addr + len));
      vm_next = 0;
    } in
        Option.map (λ mm'. (addr, mm'))
          (insert_vma_struct fuel (record mm { vmas = write_vma mm.vmas new v }) new))

-- `new` is what `kmalloc` returns.
pub do_map : ℕ → Mm → ℕ → ℕ → ℕ → Option (ℕ × Mm)
unfolding map_at get_unmapped_area
do_map fuel mm addr len new =
    let (r, mm') = get_unmapped_area fuel mm addr len in
    if len == 0 then some (addr, mm) else map_at fuel mm' len new r

-- A region that holds the end of the range, too, is taken out and given back.
unmap_found : Mm → ℕ → ℕ → Option (ℕ × ℕ) → Option (ℕ × Mm)
unmap_found mm addr len none = none
unmap_found mm addr len (some (p, prev)) =
    let h = mm.vmas in
    let end = u32 (addr + len) in
    let without =
      if prev == 0
      then record mm { mmap = (h p).vm_next; map_count = sub32 mm.map_count 1 }
      else record mm {
        vmas = write_vma h prev (record (h prev) { vm_next = (h p).vm_next });
        map_count = sub32 mm.map_count 1;
      } in
    if (p == 0) || leb end (h p).vm_start
    then some (0, mm)
    else if leb end (h p).vm_end
    then some (0, without)
    else some (1, mm)

pub do_unmap : ℕ → Mm → ℕ → ℕ → Option (ℕ × Mm)
unfolding unmap_found find_vma_and_prev
do_unmap fuel mm addr len =
    let (r, mm') = find_vma_and_prev fuel mm addr in
    if ltb kernel_entry addr || ltb kernel_entry (u32 (len + addr))
    then some (word_max, mm)
    else unmap_found mm' addr len r

-- The number of regions left in `map_count` behind the loop of `exit_mmap`.
count_down : (ℕ → Vma) → ℕ → ℕ → ℕ → Option ℕ
count_down h zero count p = none
count_down h (suc n) count p =
    let rest = count_down h n (sub32 count 1) (h p).vm_next in if p == 0 then some count else rest

-- `none` for a call that does not return: regions are left over, or the list has no end.
exit_with : Mm → Option ℕ → Option Mm
exit_with mm none = none
exit_with mm (some count) =
    if count == 0 then some (record mm { mmap = 0; mmap_cache = 0; map_count = 0 }) else none

pub exit_mmap : ℕ → Mm → Option Mm
unfolding exit_with count_down
exit_mmap fuel mm = exit_with mm (count_down mm.vmas fuel mm.map_count mm.mmap)
