-- ===== src/Vm/Chain.antt =====
-- The list of regions behind a pointer, and the order of its regions.
use os_final_program.Base.{
  ℕ, ◌≤◌, ◌<◌, ◌≡◌, refl, ap, ◌≢◌, inl, inr, Bool, true, false, ◌||◌, List, [], ◌∷◌, ◌++◌, arith,
  ◌==◌, ==_iff, ==_refl, ==_ne, Bool-cases, contains,
}
use os_final_program.Vm.{Vma, in_vma, write_vma}

-- From `p` the `vm_next` pointers lead through the regions of the list to null.
abbrev pub Chain : (ℕ → Vma) → ℕ → List ℕ → Type 0
Chain h p [] = p ≡ 0
Chain h p (v ∷ vs) = (p ≡ v) × (v ≢ 0) × Chain h (h v).vm_next vs

-- The regions are not empty, in ascending order from `lo` on, and do not overlap.
abbrev pub Sorted : (ℕ → Vma) → ℕ → List ℕ → Type 0
Sorted h lo [] = Unit {0}
Sorted h lo (v ∷ vs) =
    (lo ≤ (h v).vm_start) × ((h v).vm_start < (h v).vm_end) × Sorted h (h v).vm_end vs

-- Some region of the list holds the address.
abbrev pub holds : (ℕ → Vma) → List ℕ → ℕ → Bool
holds h [] addr = false
holds h (v ∷ vs) addr = in_vma (h v) addr || holds h vs addr

abbrev pub last_of : ℕ → List ℕ → ℕ
last_of x [] = x
last_of x (y ∷ ys) = last_of y ys

pub holds_below :
    (h : ℕ → Vma) (lo : ℕ) (vs : List ℕ) (addr : ℕ)
    → Sorted h lo vs
    → addr < lo
    → holds h vs addr ≡ false
holds_below h lo [] addr s l = refl
holds_below h lo (v ∷ vs) addr s l =
    ground (arith, holds_below h (h v).vm_end vs addr s.2 (omega arith))

pub holds-contains :
    (h : ℕ → Vma) (vs : List ℕ) (v addr : ℕ)
    → contains vs v ≡ true
    → in_vma (h v) addr ≡ true
    → holds h vs addr ≡ true
holds-contains h [] v addr c i = cc
holds-contains h (x ∷ xs) v addr c i = elim (Bool-cases (x == v)) [
  | inl t ↦ rw ((==_iff x v).0 t, i)
  | inr t ↦ rw (holds-contains h xs v addr (rw t at c) i) (ground arith)
]

pub start-last :
    (h : ℕ → Vma) (lo x : ℕ) (xs rest : List ℕ)
    → Sorted h lo (x ∷ xs ++ rest)
    → lo ≤ (h (last_of x xs)).vm_start
start-last h lo x [] rest s = s.0
start-last h lo x (y ∷ ys) rest s = omega (arith, start-last h (h x).vm_end y ys rest s.2)

-- A write of `vm_next` alone, behind the last region of `x ∷ xs`, turns the chain there to another.
pub relink :
    (h : ℕ → Vma) (lo p x r : ℕ) (xs rest new : List ℕ)
    → Chain h p (x ∷ xs ++ rest)
    → Sorted h lo (x ∷ xs ++ rest)
    → let h' = write_vma h (last_of x xs) (record (h (last_of x xs)) { vm_next = r }) in
      Chain h' r new → Chain h' p (x ∷ xs ++ new)
relink h lo p x r [] rest new c s d = (c.0, c.1, rw (==_refl x) d)
relink h lo p x r (y ∷ ys) rest new c s d = (
  c.0,
  c.1,
  rw
      (==_ne (last_of y ys) x (λ e.
        absurd
          (ground (arith, start-last h (h x).vm_end y ys rest s.2, ap (λ t. (h t).vm_start) e))))
      (relink h (h x).vm_end (h x).vm_next y r ys rest new c.2 s.2 d),
)

-- A write at a pointer that is not in the list leaves its chain.
pub Chain-write :
    (h : ℕ → Vma) (p q : ℕ) (v : Vma) (vs : List ℕ)
    → Chain h p vs
    → contains vs q ≡ false
    → Chain (write_vma h q v) p vs
Chain-write h p q v [] c o = c
Chain-write h p q v (x ∷ xs) c o =
    let ne : (q == x) ≡ false = ground arith in
    let o' : contains xs q ≡ false = ground arith in
    (c.0, c.1, rw ne (Chain-write h (h x).vm_next q v xs c.2 o'))

-- Regions from `lo` on do not include one that starts below.
pub not_contains :
    (h : ℕ → Vma) (lo q : ℕ) (vs : List ℕ)
    → Sorted h lo vs
    → (h q).vm_start < lo
    → contains vs q ≡ false
not_contains h lo q [] s l = refl
not_contains h lo q (x ∷ xs) s l =
    rw (==_ne x q (λ e. absurd (ground (arith, ap (λ t. (h t).vm_start) e))))
      (not_contains h (h x).vm_end q xs s.2 (omega arith))

pub Sorted-write :
    (h : ℕ → Vma) (lo q : ℕ) (v : Vma) (vs : List ℕ)
    → Sorted h lo vs
    → contains vs q ≡ false
    → Sorted (write_vma h q v) lo vs
Sorted-write h lo q v [] s o = tt
Sorted-write h lo q v (x ∷ xs) s o =
    let ne : (q == x) ≡ false = ground arith in
    let o' : contains xs q ≡ false = ground arith in
    rw ne (s.0, s.1, Sorted-write h (h x).vm_end q v xs s.2 o')

-- The part of a list behind the region `last_of x xs`.
pub record Behind (h : ℕ → Vma) (l : ℕ) (rest : List ℕ) : Type 0 where
  pub not_null : l ≢ 0
  pub not_empty : (h l).vm_start < (h l).vm_end
  pub chain : Chain h (h l).vm_next rest
  pub sorted : Sorted h (h l).vm_end rest

pub nothing_past_end :
    (h : ℕ → Vma) (lo p x : ℕ) (xs rest : List ℕ)
    → Chain h p (x ∷ xs ++ rest)
    → Sorted h lo (x ∷ xs ++ rest)
    → Behind h (last_of x xs) rest
nothing_past_end h lo p x [] rest c s = record {
  not_null = c.1;
  not_empty = s.1;
  chain = c.2;
  sorted = s.2;
}
nothing_past_end h lo p x (y ∷ ys) rest c s =
    nothing_past_end h (h x).vm_end (h x).vm_next y ys rest c.2 s.2

pub contains-last : (x : ℕ) (xs rest : List ℕ) → contains (x ∷ xs ++ rest) (last_of x xs) ≡ true
contains-last x [] rest = rw (==_refl x)
contains-last x (y ∷ ys) rest = rw (contains-last y ys rest) (ground arith)

pub contains-after :
    (q : ℕ) (xs rest : List ℕ) → contains (xs ++ rest) q ≡ false → contains rest q ≡ false
contains-after q [] rest o = o
contains-after q (x ∷ xs) rest o = contains-after q xs rest (ground arith)
