-- ===== src/Slab/Release.antt =====
-- `slab_free` of kernel/mm/myslab.c, and the `slab_alloc` that follows it.
use os_final_program.Base.{
  ℕ, ◌+◌, ◌-◌, ◌^◌, ◌<◌, ◌≡◌, refl, ap, ap₂, ◌∙◌, inl, inr, some, List, [], ◌∷◌, arith, ◌==◌,
  ==_iff, ==_refl, ==_ne, Bool-cases, u32,
}
use os_final_program.Pc.Queues.{unlink}
use mathlib.Core.Path.{fun_ext}
use os_final_program.Buddy.{put_at, free_block}
use os_final_program.Slab.{
  Slab, alone, linked, slab_alloc, slab_free, use_pages, serve, from_list, free_listed, give_page,
  with_buddy, list_del_init,
}

-- The first free object of the cache's page is served.
use_pages_first :
    (qs : List ℕ) (s : Slab) (c page object : ℕ) (objects : List ℕ)
    → s.free_objs page ≡ object ∷ objects
    → use_pages qs s c (some page)
      ≡ some (
        object,
        record s {
          free_objs = put_at s.free_objs page objects;
          nr_objs = put_at s.nr_objs page (u32 (s.nr_objs page + 1));
        },
      )
unfolding use_pages serve from_list
use_pages_first [] s c page object objects e = rw e refl
use_pages_first (q ∷ qs) s c page object objects e = rw e refl

put_at_same : {A : Type 0} (f : ℕ → A) (i : ℕ) (v : A) → put_at f i v i ≡ v
put_at_same f i v = rw (==_refl i) refl

put_at_back : {A : Type 0} (f : ℕ → A) (i : ℕ) (v w : A) → w ≡ f i → put_at (put_at f i v) i w ≡ f
put_at_back f i v w e = fun_ext (λ j. at j)
  where
    at : (j : _) → put_at (put_at f i v) i w j ≡ f j
    at j = elim (Bool-cases (i == j)) [
      | inr z ↦ rw z refl
      | inl z ↦ rw z (e ∙ ap f ((==_iff _ _).0 z))
    ]

-- An object of the cache's page that is on no list, once freed, is the next object of the cache, and the
-- two calls together leave the state as it was.
pub slab_free-slab_alloc :
    (s : Slab) (c page object : ℕ)
    → s.cpu c ≡ some page
    → s.node page ≡ alone
    → 0 < s.nr_objs page
    → s.nr_objs page < 2 ^ 32
    → (t : Slab) × (slab_free s c page object ≡ some t) × (slab_alloc t c ≡ some (object, s))
unfolding slab_free free_listed slab_alloc
slab_free-slab_alloc s c page object k a l u = (
  freed,
  (rw (==_ne (s.nr_objs page) 0 (λ e. omega (arith, l, e)), a) refl),
  rw k (
      use_pages_first (s.partial c) freed c page object (s.free_objs page)
        (put_at_same s.free_objs page _)
      ∙ ap (λ x. some (object, x))
          (ap₂ (λ f g. record s { free_objs = f; nr_objs = g })
            (put_at_back s.free_objs page _ _ refl)
            (put_at_back s.nr_objs page _ _
              (ap (λ n. u32 (n + 1)) (put_at_same s.nr_objs page _) ∙ wrapped)))),
)
  where
    freed : Slab
    freed = record s {
      free_objs = put_at s.free_objs page (object ∷ s.free_objs page);
      nr_objs = put_at s.nr_objs page (s.nr_objs page - 1);
    }

    wrapped : u32 (s.nr_objs page - 1 + 1) ≡ s.nr_objs page
    wrapped = omega (arith, l, u)

-- When the last object of the cache's page is freed and the page is on a list of a cache, as one that was
-- full is, then the page goes back to the buddy system but stays the cache's page: the next allocation
-- from the cache still returns an object in it.
pub slab_free-dangling :
    (s : Slab) (c page object : ℕ)
    → s.cpu c ≡ some page
    → s.node page ≡ linked
    → s.nr_objs page ≡ 1
    → (t : Slab) × (u : Slab) × (slab_free s c page object ≡ some t)
      × (t.buddy ≡ free_block s.buddy page 0)
      × (t.cpu c ≡ some page)
      × (slab_alloc t c ≡ some (object, u))
      × (u.buddy ≡ free_block s.buddy page 0)
unfolding slab_free free_listed slab_alloc give_page list_del_init with_buddy
slab_free-dangling s c page object k a l = (
  freed,
  record freed {
    free_objs = put_at freed.free_objs page (s.free_objs page);
    nr_objs = put_at freed.nr_objs page (u32 (freed.nr_objs page + 1));
  },
  rw (l, a, ==_refl page) refl,
  refl,
  k,
  rw k (
      use_pages_first (freed.partial c) freed c page object (s.free_objs page)
        (put_at_same s.free_objs page _)),
  refl,
)
  where
    freed : Slab
    freed =
        with_buddy
          (record s {
            free_objs = put_at s.free_objs page (object ∷ s.free_objs page);
            nr_objs = put_at s.nr_objs page (s.nr_objs page - 1);
            node = put_at s.node page alone;
            partial = λ c. unlink page (s.partial c);
            full = λ c. unlink page (s.full c);
          })
          (free_block s.buddy page 0)
