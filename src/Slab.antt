-- ===== src/Slab.antt =====
-- kernel/mm/myslab.c and include/zjunix/slab.h: the caches of small objects on pages of the buddy system, and
-- `kmalloc` and `kfree`. A page is its index in the buddy system, and the free objects of a page are
-- the list that starts at `slabp` and goes on in the first words of the objects.
use os_final_program.Base.{
  ℕ, zero, suc, ◌+◌, ◌-◌, ◌*◌, ◌/◌, ◌%◌, ◌^◌, ◌≤◌, ◌<◌, bit_and, bit_or, bit_xor, ◌≡◌, refl, sym,
  ap, ap₂, subst, ◌∙◌, ◌≢◌, ◌↔◌, ◌⊎◌, inl, inr, Bool, true, false, not, ◌&&◌, ◌||◌, Option, none,
  some, List, [], ◌∷◌, ◌++◌, map, arith, ltb, leb, ◌==◌, if◌then◌else◌, ltb→lt, lt→ltb, ==_iff,
  ==_refl, ==_ne, Bool-cases, Option-cases, length, get_or, set, replicate, length-append,
  length-set, length-replicate, get_or-set_self, get_or-set_ne, set-get_or, get_or-replicate,
  get_or-set, contains, contains-append, byte_test, byte_test-set, byte_test-clear, byte_test-shift,
  byte_bounds, u32, shr, shl, low_bits, sub32, word_max, page_align_up, page_align_down, flip,
  bit_and-flip, bit_xor-one, bit_and_double, bit_xor_double, bit_or-disjoint,
}
use os_final_program.Buddy.{Buddy, put_at, alloc_block, free_block, level_for}
use os_final_program.Pc.Queues.{unlink}
pub mod Fit
pub mod Release
mod Tests

-- The state of the `list` node of a page: on a list of a cache, on a free list of the buddy system,
-- pointing to itself, or left by `list_del`.
pub data Node : Type 0 where
  linked : Node
  given : Node
  alone : Node
  poisoned : Node

-- `head` of a page is the `slab_head` at its start; a cache is its index in `kmalloc_caches`.
pub record Slab : Type 0 where
  pub buddy : Buddy
  pub start_pfn : ℕ
  pub node : ℕ → Node
  pub end_ptr : ℕ → ℕ
  pub nr_objs : ℕ → ℕ
  pub was_full : ℕ → Bool
  pub free_objs : ℕ → List ℕ
  pub virtual : ℕ → ℕ
  pub cpu : ℕ → Option ℕ
  pub partial : ℕ → List ℕ
  pub full : ℕ → List ℕ

-- The head of some free list of the buddy system leads to the page.
on_free_list : Buddy → ℕ → Bool
on_free_list b page =
    contains (b.free_head 0) page
    || contains (b.free_head 1) page
    || contains (b.free_head 2) page
    || contains (b.free_head 3) page
    || contains (b.free_head 4) page

-- What `__alloc_pages` and `__free_pages` make of the buddy system, and of the nodes: those that they put on
-- a free list, and those that `list_del_init` takes from one.
with_buddy : Slab → Buddy → Slab
unfolding on_free_list
with_buddy s b = record s {
  buddy = b;
  node =
      λ p. if on_free_list b p then given else if on_free_list s.buddy p then alone else s.node p;
}

abbrev pub page_shift : ℕ
page_shift = 12

abbrev pub buddy_slab : ℕ
buddy_slab = 2 ^ 29

abbrev pub size_slab_head : ℕ
size_slab_head = 12

-- `size_kmem_cache`, all multiples of 4, from index `i` on.
abbrev pub cache_sizes : List ℕ
cache_sizes = 96 ∷ 192 ∷ 8 ∷ 16 ∷ 32 ∷ 64 ∷ 128 ∷ 256 ∷ 512 ∷ 1024 ∷ 1536 ∷ 2048 ∷ []

abbrev pub objsize : ℕ → ℕ
objsize c = get_or cache_sizes c 0

-- An object and the pointer behind it.
abbrev pub obj_stride : ℕ → ℕ
obj_stride c = objsize c + 4

-- `KMEM_ADDR`.
abbrev pub kmem_addr : Slab → ℕ → ℕ
kmem_addr s page = (s.start_pfn + page) * 4096 + 2 ^ 31

pub format_slabpage : Slab → ℕ → ℕ → Slab
format_slabpage s c page = record s {
  buddy = record s.buddy { flag = put_at s.buddy.flag page buddy_slab };
  end_ptr = put_at s.end_ptr page (kmem_addr s page + size_slab_head);
  nr_objs = put_at s.nr_objs page 0;
  was_full = put_at s.was_full page false;
  cpu = put_at s.cpu c (some page);
  virtual = put_at s.virtual page c;
  free_objs = put_at s.free_objs page [];
}

-- `PageNotFull`: an object from the space that has never been used.
pub bump : Slab → ℕ → ℕ → ℕ × Slab
bump s c page =
    let object = s.end_ptr page in
    let next = object + obj_stride c in
    let s' = record s {
      end_ptr = put_at s.end_ptr page next;
      nr_objs = put_at s.nr_objs page (u32 (s.nr_objs page + 1));
    } in
    (
      object,
      if leb 4096 (next + obj_stride c - kmem_addr s page)
          then record s' {
            was_full = put_at s.was_full page true;
            full = put_at s.full c (s.full c ++ (page ∷ []));
            node = put_at s.node page linked;
          }
          else s',
    )

-- `FromFreeList`, with what is done when the page has neither a free object nor unused space.
pub from_list : Slab → ℕ → ℕ → Option (ℕ × Slab) → List ℕ → Option (ℕ × Slab)
unfolding bump
from_list s c page rest [] = if s.was_full page then rest else some (bump s c page)
from_list s c page rest (object ∷ objects) = some (
  object,
  record s {
    free_objs = put_at s.free_objs page objects;
    nr_objs = put_at s.nr_objs page (u32 (s.nr_objs page + 1));
  },
)

pub serve : Slab → ℕ → Option ℕ → Option (ℕ × Slab) → Option (ℕ × Slab)
unfolding from_list
serve s c none rest = rest
serve s c (some page) rest = from_list s c page rest (s.free_objs page)

-- A page of the buddy system becomes the cache's page; `none` for a system without one, which stops.
pub new_page : Slab → ℕ → Option ℕ × Buddy → Option (ℕ × Slab)
unfolding format_slabpage bump with_buddy
new_page s c (none, b) = none
new_page s c (some page, b) = some (bump (format_slabpage (with_buddy s b) c page) c page)

-- The first partial page becomes the cache's page.
pub get_partial : Slab → ℕ → ℕ → List ℕ → Slab
get_partial s c page pages = record s {
  cpu = put_at s.cpu c (some page);
  partial = put_at s.partial c pages;
  node = put_at s.node page poisoned;
}

-- The pages in turn: that of the cache, the partial ones, a new one.
pub use_pages : List ℕ → Slab → ℕ → Option ℕ → Option (ℕ × Slab)
unfolding serve new_page get_partial
use_pages [] s c page = serve s c page (new_page s c (alloc_block s.buddy 0))
use_pages (q ∷ qs) s c page = serve s c page (use_pages qs (get_partial s c q qs) c (some q))

pub slab_alloc : Slab → ℕ → Option (ℕ × Slab)
unfolding use_pages
slab_alloc s c = use_pages (s.partial c) s c (s.cpu c)

-- `list_del_init`; `none` for a node that `list_del` has left, whose pointers are no addresses.
pub list_del_init : Slab → ℕ → Node → Option Slab
unfolding unlink
list_del_init s page linked = some (record s {
  node = put_at s.node page alone;
  partial = λ c. unlink page (s.partial c);
  full = λ c. unlink page (s.full c);
})
list_del_init s page given = some (record s {
  node = put_at s.node page alone;
  buddy = record s.buddy { free_head = λ l. unlink page (s.buddy.free_head l) };
})
list_del_init s page alone = some s
list_del_init s page poisoned = none

give_page : ℕ → Option Slab → Option Slab
unfolding with_buddy
give_page page none = none
give_page page (some s) = some (with_buddy s (free_block s.buddy page 0))

to_partial : ℕ → ℕ → Option Slab → Option Slab
to_partial c page none = none
to_partial c page (some s) = some (record s {
  partial = put_at s.partial c (s.partial c ++ (page ∷ []));
  node = put_at s.node page linked;
})

abbrev pub is_nil : List ℕ → Bool
is_nil [] = true
is_nil (x ∷ xs) = false

abbrev is_alone : Node → Bool
is_alone linked = false
is_alone given = false
is_alone alone = true
is_alone poisoned = false

-- The state behind the writes to the object and the counters; `was` tells that the page was full.
free_listed : Slab → ℕ → ℕ → Bool → Option Slab
unfolding give_page to_partial list_del_init
free_listed s c page was =
    if is_alone (s.node page)
    then some s
    else if s.nr_objs page == 0
    then give_page page (list_del_init s page (s.node page))
    else if was
    then to_partial c page (list_del_init s page (s.node page))
    else some s

-- `none` for a kernel that stops: an object of a page with no objects, or a wild write. `object` is an address
-- with the bit of `KERNEL_ENTRY`, and `page` the one that it lies in.
pub slab_free : Slab → ℕ → ℕ → ℕ → Option Slab
unfolding free_listed
slab_free s c page object =
    if s.nr_objs page == 0
    then none
    else free_listed
        (record s {
          free_objs = put_at s.free_objs page (object ∷ s.free_objs page);
          nr_objs = put_at s.nr_objs page (s.nr_objs page - 1);
        })
        c page (is_nil (s.free_objs page) && s.was_full page)

-- The loop of `get_slab` over the sizes from index `i` on, with `bf_num` and `bf_index`.
pub fit_from : List ℕ → ℕ → ℕ → ℕ → ℕ → ℕ
fit_from [] size i bf_num bf_index = bf_index
fit_from (o ∷ os) size i bf_num bf_index =
    let better = leb size o && ltb o bf_num in
    fit_from os size (i + 1) (if better then o else bf_num) (if better then i else bf_index)

-- The index of the cache whose objects fit best, or `page_shift`.
pub get_slab : ℕ → ℕ
unfolding fit_from
get_slab size = fit_from cache_sizes size 0 2048 page_shift

pages_result : Slab → Option ℕ × Buddy → Option (ℕ × Slab)
unfolding with_buddy
pages_result s (none, b) = some (0, with_buddy s b)
pages_result s (some page, b) = some ((s.start_pfn + page) * 4096, with_buddy s b)

-- `alloc_pages`: nothing for no pages.
alloc_pages : Slab → ℕ → Option (ℕ × Slab)
unfolding pages_result
alloc_pages s pages =
    if pages == 0 then some (0, s) else pages_result s (alloc_block s.buddy (level_for pages))

-- The address of `size` bytes, 0 if there are none; `none` for a kernel that stops.
pub phy_kmalloc : Slab → ℕ → Option (ℕ × Slab)
unfolding get_slab slab_alloc alloc_pages
phy_kmalloc s size =
    if size == 0
    then some (0, s)
    else if ltb 2048 size
    then alloc_pages s (page_align_up size / 4096)
    else if leb page_shift (get_slab size)
    then none
    else slab_alloc s (get_slab size)

-- `KERNEL_ENTRY | result` of an address in the low half or in the kernel's half.
kernel_address : Option (ℕ × Slab) → Option (ℕ × Slab)
kernel_address none = none
kernel_address (some (a, s)) = if a == 0 then some (0, s) else some (a % 2 ^ 31 + 2 ^ 31, s)

pub kmalloc : Slab → ℕ → Option (ℕ × Slab)
unfolding phy_kmalloc kernel_address
kmalloc s size = if size == 0 then some (0, s) else kernel_address (phy_kmalloc s size)

-- Of an object in a page of the buddy system. `kfree` clears the bit of `KERNEL_ENTRY`, with which
-- `slab_free` then writes the object's address to the list.
pub kfree : Slab → ℕ → Option Slab
unfolding slab_free with_buddy
kfree s obj =
    let page = obj % 2 ^ 31 / 4096 - s.start_pfn in
    if s.buddy.flag page == buddy_slab
    then slab_free s (s.virtual page) page (obj % 2 ^ 31 + 2 ^ 31)
    else some (with_buddy s (free_block s.buddy page (s.buddy.bplevel page)))

-- The caches without pages. `init_each_slab` rounds no size of `cache_sizes` up, as all are multiples of 4.
pub init_slab : Slab → Slab
init_slab s = record s { cpu = λ c. none; partial = λ c. []; full = λ c. [] }
