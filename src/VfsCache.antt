-- ===== src/VfsCache.antt =====
-- kernel/vfs/vfscache.c and include/zjunix/vfs/vfscache.h: caches with a hash table and a list in the order of
-- use, for the pages of files and for directory entries. An entry is a pointer, and the lists of
-- the table are the entries on them, from the head on. `dcache_add` and `dcache_put_LRU`, the
-- inode cache, whose functions are empty, and `init_cache` are no part of it.
use os_final_program.Base.{
  ℕ, zero, suc, ◌+◌, ◌-◌, ◌*◌, ◌/◌, ◌%◌, ◌^◌, ◌≤◌, ◌<◌, bit_and, bit_or, bit_xor, ◌≡◌, refl, sym,
  ap, ap₂, subst, ◌∙◌, ◌≢◌, ◌↔◌, ◌⊎◌, inl, inr, Bool, true, false, not, ◌&&◌, ◌||◌, Option, none,
  some, List, [], ◌∷◌, ◌++◌, map, arith, ltb, leb, ◌==◌, if◌then◌else◌, ltb→lt, lt→ltb, ==_iff,
  ==_refl, ==_ne, Bool-cases, Option-cases, length, get_or, set, replicate, length-append,
  length-set, length-replicate, get_or-set_self, get_or-set_ne, set-get_or, get_or-replicate,
  get_or-set, contains, contains-append, byte_test, byte_test-set, byte_test-clear, byte_test-shift,
  byte_bounds, u32, shr, shl, low_bits, sub32, word_max, page_align_up, page_align_down,
}
use os_final_program.Bytes.{Qstr, byte_at}
use os_final_program.Pc.Queues.{unlink}
pub mod Lists
pub mod Coherent
pub mod Add
mod Tests

-- `struct cache`.
pub record Cache : Type 0 where
  pub c_size : ℕ
  pub c_capacity : ℕ
  pub c_tablesize : ℕ
  pub lru : List ℕ
  pub hashtable : ℕ → List ℕ

pub cache_init : ℕ → ℕ → Cache
cache_init capacity tablesize = record {
  c_size = 0;
  c_capacity = capacity;
  c_tablesize = tablesize;
  lru = [];
  hashtable = λ i. [];
}

pub cache_is_full : Cache → Bool
cache_is_full c = c.c_size == c.c_capacity

-- `__intHash`.
pub int_hash : ℕ → ℕ → ℕ
int_hash key size = bit_and key (sub32 size 1)

-- The loop of `__stringHash` over the `n` characters from `i` on.
hash_from : List ℕ → ℕ → ℕ → ℕ → ℕ
hash_from name i zero value = value
hash_from name i (suc n) value = hash_from name (i + 1) n (u32 (value * 31 + byte_at name i))

-- `__stringHash`.
pub string_hash : Qstr → ℕ → ℕ
unfolding hash_from
string_hash qstr size = bit_and (hash_from qstr.name 0 qstr.len 0) (sub32 size 1)

abbrev pub put_bucket : (ℕ → List ℕ) → ℕ → List ℕ → ℕ → List ℕ
put_bucket f i v j = if i == j then v else f j

-- The first entry of a list that passes the test.
pub find_entry : (ℕ → Bool) → List ℕ → Option ℕ
find_entry test [] = none
find_entry test (t ∷ ts) = if test t then some t else find_entry test ts

-- An entry that is found goes to the front of its list and of the order of use.
pub touch : Cache → ℕ → Option ℕ → Option ℕ × Cache
unfolding unlink
touch c hash none = (none, c)
touch c hash (some t) = (
  some t,
  record c {
    hashtable = put_bucket c.hashtable hash (t ∷ unlink t (c.hashtable hash));
    lru = t ∷ unlink t c.lru;
  },
)

-- An entry goes to the front of its list and of the order of use.
unfoldable pub push_front : Cache → ℕ → ℕ → Cache
push_front c hash t = record c {
  hashtable = put_bucket c.hashtable hash (t ∷ c.hashtable hash);
  lru = t ∷ c.lru;
  c_size = u32 (c.c_size + 1);
}

-- What the cache reads of a `struct dentry`.
pub record Dentry : Type 0 where
  pub d_name : Qstr
  pub d_parent : ℕ

-- `compare` is the file system's comparison of names, 0 for equal ones.
pub dcache_look_up : (Qstr → Qstr → ℕ) → (ℕ → Dentry) → Cache → ℕ → Qstr → Option ℕ × Cache
unfolding touch find_entry string_hash
dcache_look_up compare dentry c parent name =
    let hash = string_hash name c.c_tablesize in
    touch c hash (
      find_entry (λ t. (compare (dentry t).d_name name == 0) && ((dentry t).d_parent == parent))
        (c.hashtable hash))

-- What the cache reads of a `struct vfs_page`; `p_mapping` is the file it belongs to.
pub record Page : Type 0 where
  pub p_state : ℕ
  pub p_location : ℕ
  pub p_mapping : ℕ

abbrev pub is_page : (ℕ → Page) → ℕ → ℕ → ℕ → Bool
is_page page location inode t = ((page t).p_location == location) && ((page t).p_mapping == inode)

pub pcache_look_up : (ℕ → Page) → Cache → ℕ → ℕ → Option ℕ × Cache
unfolding touch find_entry int_hash
pcache_look_up page c location inode =
    let hash = int_hash location c.c_tablesize in
    touch c hash (find_entry (is_page page location inode) (c.hashtable hash))

-- The cache, the pages listed for each file, and what `writepage` writes to.
pub record Pages (S : Type 0) : Type 0 where
  pub cache : Cache
  pub listed : ℕ → List ℕ
  pub store : S

-- `c_LRU.prev`.
pub last_entry : List ℕ → Option ℕ
last_entry [] = none
last_entry (t ∷ []) = some t
last_entry (t ∷ u ∷ us) = last_entry (u ∷ us)

module _ {S : Type 0} (writepage : ℕ → S → S) (page : ℕ → Page) where
  -- The page leaves all lists; a dirty one is written back first.
  evict : Pages S → Option ℕ → Option (Pages S)
  unfolding unlink
  evict s none = none
  evict s (some t) = some (record {
    cache = record s.cache {
      lru = unlink t s.cache.lru;
      hashtable = λ i. unlink t (s.cache.hashtable i);
      c_size = sub32 s.cache.c_size 1;
    };
    listed = λ i. unlink t (s.listed i);
    store = if (page t).p_state % 2 == 0 then s.store else writepage t s.store;
  })

  -- `none` for a list that is empty, whose head the kernel takes for a page.
  pub pcache_put_lru : Pages S → Option (Pages S)
  unfolding evict last_entry
  pcache_put_lru s = evict s (last_entry s.cache.lru)

  enter : ℕ → Option (Pages S) → Option (Pages S)
  unfolding push_front int_hash
  enter t none = none
  enter t (some s) =
      some (record s {
        cache = push_front s.cache (int_hash (page t).p_location s.cache.c_tablesize) t;
      })

  -- A new page at the front; the page that has not been used for longest makes room if none is left.
  pub pcache_add : Pages S → ℕ → Option (Pages S)
  unfolding enter pcache_put_lru cache_is_full
  pcache_add s t = enter t (if cache_is_full s.cache then pcache_put_lru s else some s)
