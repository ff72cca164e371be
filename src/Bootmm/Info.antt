-- ===== src/Bootmm/Info.antt =====
-- The array of `struct bootmm_info`: `insert_mminfo`, `split_mminfo`, `remove_mminfo`.
use os_final_program.Base.{
  ℕ, zero, suc, ◌+◌, ◌-◌, not, ◌&&◌, ◌||◌, List, [], ◌∷◌, ◌++◌, ltb, leb, ◌==◌, if◌then◌else◌,
  length, get_or, set, u32, sub32, page_align_down,
}

-- A region of addresses from `start` to `end` with its usage.
pub record MmInfo : Type 0 where
  pub start : ℕ
  pub end : ℕ
  pub type : ℕ

abbrev pub max_info : ℕ
max_info = 10

-- `enum InsertState`, and a write behind the last entry of the array.
pub data InsertState : Type 0 where
  failed no_merge forward_merge backward_merge twoway_merge overrun : InsertState

-- The loop ends with a merge, or goes on behind it with the index where it stopped.
pub data Scan : Type 0 where
  merged : InsertState → List MmInfo → Scan
  stopped : ℕ → Scan

unfoldable pub push_scan : MmInfo → Scan → Scan
push_scan x (merged s xs) = merged s (x ∷ xs)
push_scan x (stopped i) = stopped i

-- Entry `x` ends where the new region starts: the entry behind it may join, too.
unfoldable pub merge_after : ℕ → ℕ → MmInfo → List MmInfo → Scan
merge_after end type x [] = merged forward_merge (record x { end = end } ∷ [])
merge_after end type x (y ∷ ys) =
    if (y.type == type) && (y.start == u32 (end + 1))
    then merged twoway_merge (record x { end = y.end } ∷ ys)
    else merged forward_merge (record x { end = end } ∷ y ∷ ys)

-- The `for` loop over the entries from index `i` on.
unfoldable pub scan_infos : ℕ → ℕ → ℕ → ℕ → List MmInfo → Scan
scan_infos start end type i [] = stopped i
scan_infos start end type i (x ∷ xs) =
    let rest = push_scan x (scan_infos start end type (i + 1) xs) in
    if ltb start x.start
    then stopped i
    else if not (x.type == type)
    then rest
    else if x.end == sub32 start 1
    then merge_after end type x xs
    else rest

abbrev pub no_info : MmInfo
no_info = record { start = 0; end = 0; type = 0 }

-- A new entry goes behind the last.
unfoldable pub add_info : ℕ → ℕ → ℕ → List MmInfo → InsertState × List MmInfo
add_info start end type infos =
    if leb max_info (length infos)
    then (overrun, infos)
    else (no_merge, infos ++ (record { start = start; end = end; type = type } ∷ []))

-- What follows the loop.
unfoldable pub after_scan : ℕ → ℕ → ℕ → List MmInfo → Scan → InsertState × List MmInfo
unfolding add_info
after_scan start end type infos (merged s xs) = (s, xs)
after_scan start end type infos (stopped i) =
    let x = get_or infos i no_info in
    if leb max_info i
    then (failed, infos)
    else if ltb i (length infos) && ((x.type == type) && (x.start == u32 (end + 1)))
    then (backward_merge, set infos i (record x { start = start }))
    else add_info start end type infos

unfoldable pub insert_mminfo : List MmInfo → ℕ → ℕ → ℕ → InsertState × List MmInfo
unfolding after_scan scan_infos push_scan merge_after
insert_mminfo infos start end type =
    after_scan start end type infos (scan_infos start end type 0 infos)

-- Without the entry at an index; an index out of range changes nothing.
unfoldable pub remove_mminfo : List MmInfo → ℕ → List MmInfo
remove_mminfo [] index = []
remove_mminfo (x ∷ xs) zero = xs
remove_mminfo (x ∷ xs) (suc index) = x ∷ remove_mminfo xs index

-- The entry at `index` twice, the first copy up to the split and the second from it.
unfoldable pub split_at : List MmInfo → ℕ → ℕ → List MmInfo
split_at [] index s = []
split_at (x ∷ xs) zero s = record x { end = s - 1 } ∷ record x { start = s } ∷ xs
split_at (x ∷ xs) (suc index) s = x ∷ split_at xs index s

-- The loop that makes room counts an unsigned index down to `index`, and does not end if that is 0.
pub data Split : Type 0 where
  refused : Split
  hangs : Split
  done : List MmInfo → Split

unfoldable pub split_mminfo : List MmInfo → ℕ → ℕ → Split
unfolding split_at
split_mminfo infos index split_start =
    let s = page_align_down split_start in
    let x = get_or infos index no_info in
    if leb s x.start || ltb x.end s
    then refused
    else if length infos == max_info
    then refused
    else if leb (length infos) index
    then refused
    else if index == 0
    then hangs
    else done (split_at infos index s)
