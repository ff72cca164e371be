-- ===== src/VfsCache/Add.antt =====
-- What `pcache_look_up` and `pcache_add` of kernel/vfs/vfscache.c find and leave.
use os_final_program.Base.{
  ℕ, ◌+◌, ◌%◌, ◌≤◌, ◌<◌, ◌≡◌, refl, sym, ap, subst, ◌∙◌, ◌⊎◌, inl, inr, true, false, some, List, [],
  ◌∷◌, ◌++◌, arith, ◌==◌, if◌then◌else◌, ==_iff, ==_refl, Bool-cases, length, length-append,
  contains, contains-append, sub32,
}
use os_final_program.Pc.Queues.{unlink}
use os_final_program.Pc.Unlink.{Without, unlink-Without}
use os_final_program.VfsCache.{
  Cache, Page, Pages, find_entry, touch, is_page, pcache_look_up, int_hash, pcache_put_lru, evict,
  cache_is_full, pcache_add, push_front, enter,
}
use os_final_program.VfsCache.Lists.{find_entry-finds, last_of_some}
use os_final_program.VfsCache.Coherent.{
  Coherent, touch-Coherent, removed-Coherent, push_front-Coherent,
}

-- The list of the table for a page.
abbrev pub page_key : (ℕ → Page) → Cache → ℕ → ℕ
page_key page c t = int_hash (page t).p_location c.c_tablesize

-- In a coherent cache that holds a page of the file (its `p_mapping`) at the location (its `p_location`),
-- the look-up finds a page of that file at that location, puts
-- it to the front of the order of use and leaves the other pages in their order; the cache is
-- coherent again.
pub pcache_look_up-finds :
    (page : ℕ → Page) (c : Cache) (location inode t : ℕ)
    → Coherent (page_key page c) c
    → contains c.lru t ≡ true
    → (page t).p_location ≡ location
    → (page t).p_mapping ≡ inode
    → (u : ℕ) × ((pcache_look_up page c location inode).0 ≡ some u)
      × ((page u).p_location ≡ location)
      × ((page u).p_mapping ≡ inode)
      × ((rest : List ℕ) × ((pcache_look_up page c location inode).1.lru ≡ u ∷ rest)
          × Without u c.lru rest)
      × Coherent (page_key page c) (pcache_look_up page c location inode).1
unfolding pcache_look_up
pcache_look_up-finds page c location inode t v h at of = (
  r.0,
  ap (λ o. (touch c hash o).0) r.1 ∙ (unfold touch in refl),
  (is_page-fields r.0 r.2).0,
  (is_page-fields r.0 r.2).1,
  (
    unlink r.0 c.lru,
    ap (λ o. (touch c hash o).1.lru) r.1 ∙ (unfold touch in refl),
    unlink-Without r.0 c.lru,
  ),
  subst (λ o. Coherent (page_key page c) (touch c hash o).1) (sym r.1)
      (subst (λ k. Coherent (page_key page c) (touch c k (some r.0)).1) (key_of r.0 r.2)
        (touch-Coherent (page_key page c) c r.0 (in_use r.0 r.3) v)),
)
  where
    hash : ℕ
    hash = int_hash location c.c_tablesize

    e : is_page page location inode t ≡ true
    e = rw ((==_iff (page t).p_location location).1 at, (==_iff (page t).p_mapping inode).1 of) refl

    is_page-fields :
        (u : ℕ)
        → is_page page location inode u ≡ true
        → ((page u).p_location ≡ location) × ((page u).p_mapping ≡ inode)
    is_page-fields u k = (
      (==_iff (page u).p_location location).0 (ground arith),
      (==_iff (page u).p_mapping inode).0 (ground arith),
    )

    key_of : (u : ℕ) → is_page page location inode u ≡ true → page_key page c u ≡ hash
    key_of u k =
        ap (λ l. int_hash l c.c_tablesize) ((==_iff (page u).p_location location).0 (ground arith))

    in_table : contains (c.hashtable hash) t ≡ true
    in_table = v.hashed hash t ∙ rw (h, key_of t e, ==_refl hash)

    in_use : (u : ℕ) → contains (c.hashtable hash) u ≡ true → contains c.lru u ≡ true
    in_use u k = ground (arith, v.hashed hash u)

    r :
        (u : ℕ) × (find_entry (is_page page location inode) (c.hashtable hash) ≡ some u)
        × (is_page page location inode u ≡ true)
        × (contains (c.hashtable hash) u ≡ true)
    r = find_entry-finds (is_page page location inode) (c.hashtable hash) t in_table e

-- What a new page leaves: of the pages before it, `kept`, all of them, or all but the last; in the lists
-- of the files' pages, only the page that left is missing.
pub record Adds {S : Type 0} (writepage : ℕ → S → S) (page : ℕ → Page) (s : Pages S) (t : ℕ)
    (s' : Pages S) : Type 0 where
  pub kept :
      ((length s.cache.lru < s.cache.c_capacity)
        × (s'.cache.lru ≡ t ∷ s.cache.lru)
        × (s'.store ≡ s.store)
        × (s'.listed ≡ s.listed))
      ⊎ ((length s.cache.lru ≡ s.cache.c_capacity)
          × ((u : ℕ) × (us : List ℕ) × (s.cache.lru ≡ us ++ (u ∷ []))
              × (s'.cache.lru ≡ t ∷ us)
              × (s'.store ≡ (if (page u).p_state % 2 == 0 then s.store else writepage u s.store))
              × ((i : ℕ) → Without u (s.listed i) (s'.listed i))))
  pub same_size : s'.cache.c_tablesize ≡ s.cache.c_tablesize
  pub same_capacity : s'.cache.c_capacity ≡ s.cache.c_capacity
  pub coherent : Coherent (page_key page s'.cache) s'.cache

-- The page that has not been used for longest, and what is left without it.
record Puts {S : Type 0} (writepage : ℕ → S → S) (page : ℕ → Page) (s s' : Pages S) : Type 0 where
  put : ℕ
  stay : List ℕ
  was : s.cache.lru ≡ stay ++ (put ∷ [])
  left : s'.cache.lru ≡ stay
  stored : s'.store ≡ (if (page put).p_state % 2 == 0 then s.store else writepage put s.store)
  unlisted : (i : ℕ) → Without put (s.listed i) (s'.listed i)
  same_table : s'.cache.c_tablesize ≡ s.cache.c_tablesize
  same_capacity : s'.cache.c_capacity ≡ s.cache.c_capacity
  still : Coherent (page_key page s.cache) s'.cache

pcache_put_lru-Puts :
    {S : Type 0} (writepage : ℕ → S → S) (page : ℕ → Page) (s : Pages S)
    → 1 ≤ length s.cache.lru
    → Coherent (page_key page s.cache) s.cache
    → (s' : Pages S) × (pcache_put_lru writepage page s ≡ some s') × Puts writepage page s s'
unfolding pcache_put_lru evict
pcache_put_lru-Puts writepage page s l v =
    let r = last_of_some s.cache.lru l v.no_twice in
    (
      record {
        cache = record s.cache {
          lru = unlink r.0 s.cache.lru;
          hashtable = λ i. unlink r.0 (s.cache.hashtable i);
          c_size = sub32 s.cache.c_size 1;
        };
        listed = λ i. unlink r.0 (s.listed i);
        store = if (page r.0).p_state % 2 == 0 then s.store else writepage r.0 s.store;
      },
      ap (evict writepage page s) r.2,
      record {
        put = r.0;
        stay = r.1;
        was = r.3;
        left = r.5;
        stored = refl;
        unlisted = λ i. unlink-Without r.0 (s.listed i);
        same_table = refl;
        same_capacity = refl;
        still = removed-Coherent (page_key page s.cache) s.cache r.0 r.4 v;
      },
    )

-- A page enters a coherent cache with room.
pub entered-Coherent :
    (page : ℕ → Page) (c : Cache) (t : ℕ)
    → contains c.lru t ≡ false
    → length c.lru < c.c_capacity
    → Coherent (page_key page c) c
    → Coherent (page_key page c) (push_front c (page_key page c t) t)
entered-Coherent page c t n l v = push_front-Coherent (page_key page c) c t n l v

full-length :
    {key : ℕ → ℕ} → (c : Cache) → Coherent key c → cache_is_full c ≡ (length c.lru == c.c_capacity)
unfolding cache_is_full
full-length c v = rw v.counted

not_in_stay :
    (ts us : List ℕ) (u t : ℕ) → ts ≡ us ++ (u ∷ []) → contains ts t ≡ false → contains us t ≡ false
not_in_stay ts us u t e n = ground (arith, contains-append us (u ∷ []) t, ap (λ k. contains k t) e)

length_stay : (ts us : List ℕ) (u : ℕ) → ts ≡ us ++ (u ∷ []) → length us + 1 ≡ length ts
length_stay ts us u e = sym (ap length e ∙ length-append us (u ∷ []))

-- In a coherent cache with a capacity of at least one, `pcache_add` of a page that the cache does not
-- hold gives a coherent cache of the same size of table and capacity with the page in front. While
-- there is room, the pages of the cache stay in their order, nothing is written back and no file's
-- list of pages changes; in a full cache, the page that has not been used for longest leaves the
-- cache and the lists of pages, written back if it is dirty.
pub pcache_add-Adds :
    {S : Type 0} (writepage : ℕ → S → S) (page : ℕ → Page) (s : Pages S) (t : ℕ)
    → Coherent (page_key page s.cache) s.cache
    → 1 ≤ s.cache.c_capacity
    → contains s.cache.lru t ≡ false
    → (s' : Pages S) × (pcache_add writepage page s t ≡ some s') × Adds writepage page s t s'
unfolding pcache_add enter push_front
pcache_add-Adds {S = S} writepage page s t v l n =
    elim (Bool-cases (length s.cache.lru == s.cache.c_capacity)) [
      | inr z ↦ (
        record s { cache = push_front s.cache (page_key page s.cache t) t },
        rw (full-length s.cache v, z),
        record {
          kept = inl (ground (arith, v.fits, z), refl, refl, refl);
          same_size = refl;
          same_capacity = refl;
          coherent = entered-Coherent page s.cache t n (ground (arith, v.fits, z)) v;
        },
      )
      | inl z ↦ full z
    ]
  where
    full :
        (length s.cache.lru == s.cache.c_capacity) ≡ true
        → (s' : Pages S) × (pcache_add writepage page s t ≡ some s') × Adds writepage page s t s'
    full z =
        let e : length s.cache.lru ≡ s.cache.c_capacity = (==_iff _ _).0 z in
        let r = pcache_put_lru-Puts writepage page s (omega (arith, e, l)) v in
        let m : Pages S = r.0 in
        let p : Puts writepage page s m = r.2 in
        (
          record m { cache = push_front m.cache (page_key page m.cache t) t },
          rw (full-length s.cache v, z) (ap (enter writepage page t) r.1),
          record {
            kept = inr (e, (p.put, p.stay, p.was, ap (λ w. t ∷ w) p.left, p.stored, p.unlisted));
            same_size = p.same_table;
            same_capacity = p.same_capacity;
            coherent =
                entered-Coherent page m.cache t
                  (ap (λ w. contains w t) p.left ∙ not_in_stay s.cache.lru p.stay p.put t p.was n)
                  (omega (
                    arith,
                    p.same_capacity,
                    ap length p.left,
                    length_stay s.cache.lru p.stay p.put p.was,
                    e,
                  ))
                  (subst (λ k. Coherent (λ u. int_hash (page u).p_location k) m.cache)
                    (sym p.same_table) p.still);
          },
        )
