-- ===== src/Slab/Tests.antt =====
-- A cache of the slab allocator on a buddy system of sixteen pages.
use os_final_program.Base.{
  ℕ, ◌+◌, ◌^◌, ◌≤◌, ◌<◌, ◌≡◌, refl, ◌⊎◌, false, Option, none, some, [], ◌∷◌, arith, ◌==◌,
  if◌then◌else◌,
}
use os_final_program.Buddy.{init_buddy, free_block, alloc_block}
use os_final_program.Slab.{
  init_slab, Slab, given, alone, slab_alloc, slab_free, get_slab, kmalloc, objsize,
}
use os_final_program.Slab.Fit.{get_slab-best_fit, kmalloc-stops}
use os_final_program.Slab.Release.{slab_free-slab_alloc, slab_free-dangling}

fresh : Slab
fresh = init_slab (record {
  buddy = init_buddy 16;
  start_pfn = 0;
  node = λ p. if p == 0 then given else alone;
  end_ptr = λ p. 0;
  nr_objs = λ p. 0;
  was_full = λ p. false;
  free_objs = λ p. [];
  virtual = λ p. 0;
  cpu = λ c. some 3;
  partial = λ c. [];
  full = λ c. [];
})

after_alloc : Option (ℕ × Slab) → Slab
after_alloc none = fresh
after_alloc (some (object, s)) = s

after_free : Option Slab → Slab
after_free none = fresh
after_free (some s) = s

-- With an object of 1500 bytes.
one_object : Slab
unfolding fresh after_alloc slab_alloc
one_object = after_alloc (slab_alloc fresh 10)

two_objects : Slab
unfolding after_alloc one_object slab_alloc
two_objects = after_alloc (slab_alloc one_object 10)

first_freed : Slab
unfolding after_free two_objects slab_free
first_freed = after_free (slab_free two_objects 10 0 (2 ^ 31 + 12))

-- Two objects fill the page.
full_page : (two_objects.full 10 ≡ 0 ∷ []) × (two_objects.nr_objs 0 ≡ 2)
unfolding init_slab two_objects one_object fresh slab_alloc init_buddy alloc_block
full_page = (refl, refl)

slab_free-slab_alloc_example :
    (t : Slab) × (slab_free one_object 10 0 (2 ^ 31 + 12) ≡ some t)
    × (slab_alloc t 10 ≡ some (2 ^ 31 + 12, one_object))
unfolding init_slab one_object fresh slab_alloc init_buddy alloc_block
slab_free-slab_alloc_example =
    slab_free-slab_alloc one_object 10 0 (2 ^ 31 + 12) refl refl (omega arith) (omega arith)

slab_free-dangling_example :
    (t : Slab) × (u : Slab) × (slab_free first_freed 10 0 (2 ^ 31 + 1552) ≡ some t)
    × (t.buddy ≡ free_block first_freed.buddy 0 0)
    × (t.cpu 10 ≡ some 0)
    × (slab_alloc t 10 ≡ some (2 ^ 31 + 1552, u))
    × (u.buddy ≡ free_block first_freed.buddy 0 0)
unfolding init_slab first_freed two_objects one_object fresh slab_alloc slab_free init_buddy
    alloc_block
slab_free-dangling_example = slab_free-dangling first_freed 10 0 (2 ^ 31 + 1552) refl refl refl

get_slab-best_fit_example :
    ((100 ≤ 1536)
      × (get_slab 100 < 12)
      × (100 ≤ objsize (get_slab 100))
      × ((c : ℕ) → c < 12 → 100 ≤ objsize c → objsize (get_slab 100) ≤ objsize c))
    ⊎ ((1536 < 100) × (get_slab 100 ≡ 12))
get_slab-best_fit_example = get_slab-best_fit 100

kmalloc-stops_example : kmalloc fresh 2000 ≡ none
kmalloc-stops_example = kmalloc-stops fresh 2000 (omega arith) (omega arith)
