-- ===== src/Lock/Slots.antt =====
-- The free slots of the lock.
use os_final_program.Base.{
  ℕ, zero, suc, ◌+◌, ◌%◌, ◌<◌, ◌≡◌, refl, ap, ◌∙◌, ◌⊎◌, inl, inr, true, false, Option, none, some,
  List, [], ◌∷◌, arith, ◌==◌, if◌then◌else◌, Bool-cases, length, get_or, set, length-set,
}
use os_final_program.Lock.{
  Lock, max_con, is_free, first_free, find_slot, largest, take_slot, do_lock, holds_pid, slot_of,
  free_slot, do_unlock,
}
use os_final_program.Lock.{init_lock}

pub free_count : List (Option ℕ) → ℕ
unfolding is_free
free_count [] = 0
free_count (s ∷ ss) = if is_free s then free_count ss + 1 else free_count ss

free_count-set :
    (m : List (Option ℕ)) (i p : ℕ)
    → i < length m
    → is_free (get_or m i none) ≡ true
    → free_count (set m i (some p)) + 1 ≡ free_count m
unfolding free_count is_free
free_count-set [] i p l h = absurd (omega arith)
free_count-set (none ∷ ss) zero p l h = refl
free_count-set (some q ∷ ss) zero p l h = cc
free_count-set (none ∷ ss) (suc i) p l h = omega (arith, free_count-set ss i p (omega arith) h)
free_count-set (some q ∷ ss) (suc i) p l h = free_count-set ss i p (omega arith) h

free_count_overwritten :
    (m : List (Option ℕ)) (i p : ℕ)
    → is_free (get_or m i (some 0)) ≡ false
    → free_count (set m i (some p)) ≡ free_count m
unfolding free_count is_free
free_count_overwritten [] i p h = refl
free_count_overwritten (none ∷ ss) zero p h = cc
free_count_overwritten (some q ∷ ss) zero p h = refl
free_count_overwritten (none ∷ ss) (suc i) p h = omega (arith, free_count_overwritten ss i p h)
free_count_overwritten (some q ∷ ss) (suc i) p h = free_count_overwritten ss i p h

-- The loop for a free slot finds one if there is one.
first_free-finds :
    (m : List (Option ℕ)) (i : ℕ)
    → ((first_free m i ≡ none) × (free_count m ≡ 0))
      ⊎ ((j : ℕ) × (first_free m i ≡ some (i + j))
          × (j < length m)
          × (is_free (get_or m j none) ≡ true))
unfolding first_free free_count is_free
first_free-finds [] i = inl (refl, refl)
first_free-finds (none ∷ ss) i = inr (0, ap some (omega arith), omega arith, refl)
first_free-finds (some q ∷ ss) i = elim (first_free-finds ss (i + 1)) [
  | inl (e, z) ↦ inl (e, z)
  | inr (j, e, l, h) ↦ inr (suc j, e ∙ ap some (omega arith), omega arith, h)
]

find_slot-finds :
    (m : List (Option ℕ)) (pid : ℕ)
    → length m ≡ max_con
    → ((find_slot m pid ≡ none) × (free_count m ≡ 0))
      ⊎ ((j : ℕ) × (find_slot m pid ≡ some j) × (j < length m) × (is_free (get_or m j none) ≡ true))
unfolding find_slot
find_slot-finds m pid l = elim (Bool-cases (is_free (get_or m (pid % 8) none))) [
  | inl z ↦ inr (pid % 8, rw z, omega (arith, l), z)
  | inr z ↦ rw z (elim (first_free-finds m 0) [
    | inl r ↦ inl r
    | inr (j, e, h, f) ↦ inr (j, e ∙ ap some (omega arith), h, f)
  ])
]

-- A process that takes a free slot of the lock leaves one fewer.
pub do_lock-takes :
    (l : Lock) (pid : ℕ)
    → length l.hash_map ≡ max_con
    → ((do_lock l pid ≡ none) × (free_count l.hash_map ≡ 0))
      ⊎ ((i : ℕ) × (l' : Lock) × (do_lock l pid ≡ some (i, l'))
          × (length l'.hash_map ≡ max_con)
          × (free_count l'.hash_map + 1 ≡ free_count l.hash_map))
unfolding do_lock take_slot
do_lock-takes l pid e = elim (find_slot-finds l.hash_map pid e) [
  | inl (n, z) ↦ inl (ap (take_slot l pid) n, z)
  | inr (j, f, k, h) ↦ inr (
    j,
    record {
      hash_map = set l.hash_map j (some pid);
      number = set l.number j (largest 0 l.number + 1);
      choosing = set l.choosing j 0;
    },
    ap (take_slot l pid) f,
    length-set l.hash_map j (some pid) ∙ e,
    free_count-set l.hash_map j pid k h,
  )
]

-- A slot that the search returns is taken.
slot_of-taken :
    (m : List (Option ℕ)) (pid i : ℕ)
    → (slot_of m pid i ≡ none)
      ⊎ ((j : ℕ) × (slot_of m pid i ≡ some (i + j)) × (is_free (get_or m j (some 0)) ≡ false))
unfolding slot_of holds_pid is_free
slot_of-taken [] pid i = inl refl
slot_of-taken (none ∷ ss) pid i = elim (slot_of-taken ss pid (i + 1)) [
  | inl e ↦ inl e
  | inr (j, e, h) ↦ inr (suc j, e ∙ ap some (omega arith), h)
]
slot_of-taken (some q ∷ ss) pid i = elim (Bool-cases (q == pid)) [
  | inl z ↦ inr (0, rw z (ap some (omega arith)), refl)
  | inr z ↦ rw z (elim (slot_of-taken ss pid (i + 1)) [
    | inl e ↦ inl e
    | inr (j, e, h) ↦ inr (suc j, e ∙ ap some (omega arith), h)
  ])
]

-- A release frees no slot.
pub do_unlock-frees_none :
    (l : Lock) (pid : ℕ) → free_count (do_unlock l pid).hash_map ≡ free_count l.hash_map
unfolding do_unlock
do_unlock-frees_none l pid = elim (slot_of-taken l.hash_map pid 0) [
  | inl e ↦ ap (λ o. free_count (free_slot l o).hash_map) e ∙ (unfold free_slot in refl)
  | inr (j, e, h) ↦
      ap (λ o. free_count (free_slot l o).hash_map) (e ∙ ap some (omega arith))
      ∙ (unfold free_slot in free_count_overwritten l.hash_map j 0 h)
]

pub do_unlock-length : (l : Lock) (pid : ℕ) → length (do_unlock l pid).hash_map ≡ length l.hash_map
unfolding do_unlock
do_unlock-length l pid = go (slot_of l.hash_map pid 0)
  where
    go : (o : Option ℕ) → length (free_slot l o).hash_map ≡ length l.hash_map
    go none = unfold free_slot in refl
    go (some i) = unfold free_slot in length-set l.hash_map i (some 0)

pub free_count-init : free_count init_lock.hash_map ≡ 8
unfolding free_count is_free init_lock
free_count-init = refl

pub length-init : length init_lock.hash_map ≡ 8
unfolding init_lock
length-init = refl
