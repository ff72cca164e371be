-- ===== src/Buddy.antt =====
-- kernel/mm/mybuddy.c and include/zjunix/buddy.h: the buddy allocator. A page is its index from `start_page` on,
-- and a free list is the list of the pages that are linked into it. `lockup` and `unlock` are no
-- part of it: each operation is one step.
use os_final_program.Base.{
  ℕ, zero, suc, ◌+◌, ◌-◌, ◌*◌, ◌/◌, ◌%◌, ◌^◌, ◌≤◌, ◌<◌, bit_and, bit_or, bit_xor, ◌≡◌, refl, sym,
  ap, ap₂, subst, ◌∙◌, ◌≢◌, ◌↔◌, ◌⊎◌, inl, inr, Bool, true, false, not, ◌&&◌, ◌||◌, Option, none,
  some, List, [], ◌∷◌, ◌++◌, map, arith, ltb, leb, ◌==◌, if◌then◌else◌, ltb→lt, lt→ltb, ==_iff,
  ==_refl, ==_ne, Bool-cases, Option-cases, length, get_or, set, replicate, length-append,
  length-set, length-replicate, get_or-set_self, get_or-set_ne, set-get_or, get_or-replicate,
  get_or-set, contains, contains-append, byte_test, byte_test-set, byte_test-clear, byte_test-shift,
  byte_bounds, u32, shr, shl, low_bits, sub32, word_max, page_align_up, page_align_down, flip,
  bit_and-flip, bit_xor-one, bit_and_double, bit_xor_double, bit_or-disjoint,
}
use os_final_program.Pc.Queues.{unlink}
pub mod Halves
pub mod Tiling
pub mod Rep
pub mod Merge
pub mod Give
pub mod Free
pub mod Split
pub mod Take
pub mod Alloc
pub mod Init
mod Tests

abbrev pub max_buddy_order : ℕ
max_buddy_order = 4

abbrev pub buddy_free : ℕ
buddy_free = 0

abbrev pub buddy_alloced : ℕ
buddy_alloced = 2 ^ 30

abbrev pub buddy_reserved : ℕ
buddy_reserved = 2 ^ 31

-- What the allocator keeps of each `struct page`, and the free lists by level.
pub record Buddy : Type 0 where
  pub flag : ℕ → ℕ
  pub bplevel : ℕ → ℕ
  pub free_head : ℕ → List ℕ
  pub nr_free : ℕ → ℕ

abbrev pub put_at {ℓ} : {A : Type ℓ} → (ℕ → A) → ℕ → A → ℕ → A
put_at f i v j = if i == j then v else f j

-- The pair leaves its list, and one of the two is no block any more.
pub join : Buddy → ℕ → ℕ → ℕ → Buddy
unfolding unlink
join b page pair level = record b {
  free_head = λ i. unlink pair (b.free_head i);
  nr_free = put_at b.nr_free level (sub32 (b.nr_free level) 1);
  bplevel = put_at b.bplevel (if bit_and pair page == pair then pair else page) word_max;
}

-- The `while` loop of `__free_pages`, with the rounds that are left: the block that the page has become
-- part of, and its level.
pub combine : ℕ → Buddy → ℕ → ℕ → Buddy × ℕ × ℕ
unfolding join
combine zero b page level = (b, page, level)
combine (suc n) b page level =
    let pair = bit_xor page (2 ^ level) in
    let rest = combine n (join b page pair level) (bit_and pair page) (level + 1) in
    if (b.bplevel pair == level) && (b.flag pair == buddy_free) then rest else (b, page, level)

-- A block goes to the front of the list of its level.
pub add_free : Buddy → ℕ → ℕ → Buddy
add_free b page level = record b {
  bplevel = put_at b.bplevel page level;
  flag = put_at b.flag page buddy_free;
  free_head = put_at b.free_head level (page ∷ b.free_head level);
  nr_free = put_at b.nr_free level (u32 (b.nr_free level + 1));
}

add_combined : Buddy × ℕ × ℕ → Buddy
unfolding add_free
add_combined (b, page, level) = add_free b page level

-- `__free_pages`.
pub free_block : Buddy → ℕ → ℕ → Buddy
unfolding combine add_combined
free_block b page level = add_combined (combine (max_buddy_order - level) b page level)

-- The first level from `order` on, of `n`, that has a free block.
pub find_order : ℕ → (ℕ → List ℕ) → ℕ → Option (ℕ × ℕ)
find_order zero free order = none
find_order (suc n) free order =
    let rest = find_order n free (order + 1) in
    elim (free order) [ [] ↦ rest | page ∷ pages ↦ some (page, order) ]

-- The second halves go to the lists of the levels below, down from `level + n` to `level`.
pub split_down : ℕ → Buddy → ℕ → ℕ → Buddy
unfolding add_free
split_down zero b page level = b
split_down (suc n) b page level =
    split_down n (add_free b (page + 2 ^ (level + n)) (level + n)) page level

take_block : Buddy → ℕ → Option (ℕ × ℕ) → Option ℕ × Buddy
unfolding split_down unlink
take_block b level none = (none, b)
take_block b level (some (page, order)) = (
  some page,
  split_down (order - level)
      (record b {
        free_head = λ i. unlink page (b.free_head i);
        bplevel = put_at b.bplevel page level;
        flag = put_at b.flag page buddy_alloced;
        nr_free = put_at b.nr_free order (sub32 (b.nr_free order) 1);
      })
      page level,
)

-- `__alloc_pages`: the first page of a block of the level.
unfoldable pub alloc_block : Buddy → ℕ → Option ℕ × Buddy
unfolding take_block find_order
alloc_block b level =
    take_block b level (find_order (suc max_buddy_order - level) b.free_head level)

-- The loop of `alloc_pages`, with the rounds that are left.
level_from : ℕ → ℕ → ℕ → ℕ
level_from zero pages level = level
level_from (suc n) pages level =
    let rest = level_from n pages (level + 1) in if ltb (2 ^ level) pages then rest else level

-- The level whose blocks are large enough.
pub level_for : ℕ → ℕ
unfolding level_from
level_for pages = level_from 32 pages 0

-- The pages as they are before `init_buddy` gives them back one by one.
pub reserved : Buddy
reserved = record {
  flag = λ p. buddy_reserved;
  bplevel = λ p. 0;
  free_head = λ l. [];
  nr_free = λ l. 0;
}

-- The loop at the end of `init_buddy`, over the `n` pages from `page` on.
pub free_each : ℕ → Buddy → ℕ → Buddy
unfolding free_block
free_each zero b page = b
free_each (suc n) b page = free_each n (free_block b page 0) (page + 1)

-- `init_buddy`, with `n` pages.
unfoldable pub init_buddy : ℕ → Buddy
unfolding free_each reserved
init_buddy n = free_each n reserved 0
