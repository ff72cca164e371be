-- ===== src/Bootmm.antt =====
-- kernel/mm/mybootmm.c and include/zjunix/bootmm.h: the allocator that serves the kernel while it
-- boots. `Bootmm` is `struct bootmm`: the list `info` holds the first `cnt_infos` entries of the array
-- of `MAX_INFO`, and `s_map` is the page map as a function of the page frame number. Addresses and
-- sizes are 32-bit words.
pub mod Info
pub mod Find
pub mod Insert
pub mod Alloc
pub mod Release
mod Tests
use os_final_program.Base.{
  ℕ, zero, suc, ◌+◌, ◌-◌, ◌*◌, ◌/◌, ◌%◌, ◌^◌, ◌≤◌, ◌<◌, bit_and, bit_or, bit_xor, ◌≡◌, refl, sym,
  ap, ap₂, subst, ◌∙◌, ◌≢◌, ◌↔◌, ◌⊎◌, inl, inr, Bool, true, false, not, ◌&&◌, ◌||◌, Option, none,
  some, List, [], ◌∷◌, ◌++◌, map, arith, ltb, leb, ◌==◌, if◌then◌else◌, ltb→lt, lt→ltb, ==_iff,
  ==_refl, ==_ne, Bool-cases, Option-cases, length, get_or, set, replicate, length-append,
  length-set, length-replicate, get_or-set_self, get_or-set_ne, set-get_or, get_or-replicate,
  get_or-set, contains, contains-append, byte_test, byte_test-set, byte_test-clear, byte_test-shift,
  byte_bounds, u32, shr, shl, low_bits, sub32, word_max, page_align_up, page_align_down,
}
use Info.{MmInfo, no_info, insert_mminfo, remove_mminfo, Split, refused, hangs, done, split_mminfo}

abbrev pub page_free : ℕ
page_free = 0x00

abbrev pub page_used : ℕ
page_used = 0xff

pub record Bootmm : Type 0 where
  pub phymm : ℕ
  pub max_pfn : ℕ
  pub s_map : ℕ → ℕ
  pub last_alloc_end : ℕ
  pub info : List MmInfo

-- The loop of `set_maps`, by the pages that are left.
pub set_maps : (ℕ → ℕ) → ℕ → ℕ → ℕ → ℕ → ℕ
set_maps m s_pfn zero value = m
set_maps m s_pfn (suc cnt) value =
    set_maps (λ p. if s_pfn == p then value else m p) (s_pfn + 1) cnt value

-- `UPPER_ALLIGN(x, y)` of words.
pub upper_align : ℕ → ℕ → ℕ
upper_align x y = bit_and (u32 (x + (y - 1))) (word_max - (y - 1))

pub data Pages : Type 0 where
  short : Pages
  restart : ℕ → Pages
  enough : ℕ → Pages

-- The `while (cnt)` loop of `find_pages`, with `temp` and `cnt`. It tests the map at `i`.
pub count_pages : (ℕ → ℕ) → ℕ → ℕ → ℕ → ℕ → Pages
count_pages m i e_pfn temp zero = enough temp
count_pages m i e_pfn temp (suc cnt) =
    let rest = count_pages m i e_pfn (temp + 1) cnt in
    if leb e_pfn temp then short else if m i == page_used then restart (temp + 1) else rest

pub data Found : Type 0 where
  not_found : Found
  at_page : ℕ → ℕ → Found
  out_of_fuel : Found

next_round : (ℕ → Found) → ℕ → ℕ → Pages → Found
next_round again align_pfn i short = not_found
next_round again align_pfn i (restart j) = again (upper_align j align_pfn)
next_round again align_pfn i (enough temp) = at_page i temp

-- The `for` loop of `find_pages`: the page it takes and the page behind the last one it counted.
pub find_loop : (ℕ → ℕ) → ℕ → ℕ → ℕ → ℕ → ℕ → Found
unfolding next_round
find_loop m page_cnt e_pfn align_pfn zero i = out_of_fuel
find_loop m page_cnt e_pfn align_pfn (suc fuel) i =
    let skip = find_loop m page_cnt e_pfn align_pfn fuel (i + 1) in
    let try =
      next_round (λ j. find_loop m page_cnt e_pfn align_pfn fuel j) align_pfn i
        (count_pages m i e_pfn i page_cnt) in
    if leb e_pfn i then not_found else if m i == page_used then skip else try

abbrev unit_align : ℕ → ℕ
unit_align a = if a == 0 then 1 else a

take_pages : Bootmm → ℕ → Found → Option ℕ × Bootmm
take_pages b page_cnt not_found = (some 0, b)
take_pages b page_cnt out_of_fuel = (none, b)
take_pages b page_cnt (at_page i temp) = (
  some (shl i 12),
  record b { last_alloc_end = temp - 1; s_map = set_maps b.s_map i page_cnt page_used },
)

-- The address of the pages, 0 if there are none; `none` stands for a loop that has not ended within
-- the fuel, one round for each page frame number below `e_pfn` and one more.
pub find_pages : Bootmm → ℕ → ℕ → ℕ → ℕ → Option ℕ × Bootmm
unfolding take_pages find_loop
find_pages b page_cnt s_pfn e_pfn align_pfn =
    let align = unit_align align_pfn in
    take_pages b page_cnt
      (find_loop b.s_map page_cnt e_pfn align (suc e_pfn) (upper_align s_pfn align))

abbrev pub is_address : Option ℕ → Bool
is_address none = false
is_address (some a) = not (a == 0)

-- The pages are taken, and their addresses recorded.
record_pages : ℕ → ℕ → Option ℕ × Bootmm → Option ℕ × Bootmm
record_pages size type (none, b) = (none, b)
record_pages size type (some a, b) =
    (some a, record b { info = (insert_mminfo b.info a (sub32 (u32 (a + size)) 1) type).1 })

-- The second search starts at the front, and ends where the first began.
search_front : ℕ → ℕ → ℕ → Bootmm → Option ℕ × Bootmm
unfolding record_pages find_pages
search_front size type align b =
    let r = find_pages b (size / 4096) 0 b.last_alloc_end (align / 4096) in
    if is_address r.0 then record_pages size type r else r

-- `none` stands for a search that has not ended within its fuel.
pub bootmm_alloc_pages : Bootmm → ℕ → ℕ → ℕ → Option ℕ × Bootmm
unfolding search_front
bootmm_alloc_pages b size0 type align =
    let size = page_align_up size0 in
    let r = find_pages b (size / 4096) (u32 (b.last_alloc_end + 1)) b.max_pfn (align / 4096) in
    if is_address r.0 then record_pages size type r else search_front size type align r.1

-- The memory size is the machine's.
pub init_bootmm : ℕ → Bootmm
init_bootmm phymm = record {
  phymm = phymm;
  max_pfn = phymm / 4096;
  s_map = λ p. if ltb p 4096 then page_used else page_free;
  last_alloc_end = 4095;
  info = (insert_mminfo [] 0 0xffffff 0).1;
}

-- The first entry that holds the whole region, or `cnt_infos`.
holder_from : List MmInfo → ℕ → ℕ → ℕ → ℕ
holder_from [] start end i = i
holder_from (x ∷ xs) start end i =
    if leb x.start start && leb end x.end then i else holder_from xs start end (i + 1)

split_region : Bootmm → ℕ → ℕ → ℕ → MmInfo → Split → Option Bootmm
split_region b index start size target refused = some b
split_region b index start size target hangs = none
split_region b index start size target (done infos) = some (record b {
  info = set infos (index + 1) (record target { start = u32 (start + size) });
  s_map = set_maps b.s_map (shl start 12) (size / 4096) page_free;
})

-- The page map is cleared from page `start << PAGE_SHIFT` on.
release : Bootmm → ℕ → ℕ → ℕ → MmInfo → Option Bootmm
unfolding split_region
release b index start size target =
    let end = sub32 (u32 (start + size)) 1 in
    let cleared = set_maps b.s_map (shl start 12) (size / 4096) page_free in
    if target.start == start
    then if target.end == end
      then some (record b { info = remove_mminfo b.info index; s_map = cleared })
      else some (record b {
        info = set b.info index (record target { start = u32 (start + size) });
        s_map = cleared;
      })
    else if target.end == end
    then some (record b {
      info = set b.info index (record target { end = sub32 start 1 });
      s_map = cleared;
    })
    else split_region b index start size target (split_mminfo b.info index start)

-- `none` stands for a call that does not return.
pub bootmm_free_pages : Bootmm → ℕ → ℕ → Option Bootmm
unfolding release holder_from
bootmm_free_pages b start0 size0 =
    let size = page_align_down size0 in
    let start = page_align_down start0 in
    let index = holder_from b.info start (sub32 (u32 (start + size)) 1) 0 in
    if size / 4096 == 0
    then some b
    else if index == length b.info
    then some b
    else release b index start size (get_or b.info index no_info)
