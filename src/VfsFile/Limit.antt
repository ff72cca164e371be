-- ===== src/VfsFile/Limit.antt =====
-- What a read copies from each page, and from all of them up to the first byte that is not read.
use os_final_program.Base.{
  ℕ, zero, suc, ◌+◌, ◌-◌, ◌*◌, ◌/◌, ◌^◌, ◌≤◌, ◌<◌, ◌≡◌, refl, sym, ap, ap₂, ◌∙◌, ◌≢◌, inl, inr,
  Option, some, List, [], ◌∷◌, ◌++◌, arith, ltb, ltb→lt, ==_iff, ==_refl, ==_ne, Bool-cases,
}
use native.Mathlib.Numerals.{unary_clauses}
use native.Mathlib.Nat.{div-add-mod', mod-lt}
use os_final_program.VfsFile.{
  generic_file_read, read_range, read_limit, bytes, Range, copy_page, copied, read_pages,
}

bytes-append : (f : ℕ → ℕ) (a n m : ℕ) → bytes f a n ++ bytes f (a + n) m ≡ bytes f a (n + m)
unfolding bytes
bytes-append f a zero m =
    let start : a + 0 ≡ a = omega arith in
    let rest : m ≡ 0 + m = omega arith in ap (λ b. bytes f b m) start ∙ ap (bytes f a) rest
bytes-append f a (suc n) m =
    let shifted : a + suc n ≡ a + 1 + n = omega arith in
    let longer : suc (n + m) ≡ suc n + m = omega arith in
    ap (λ xs. f a ∷ xs)
      (ap (λ b. bytes f (a + 1) n ++ bytes f b m) shifted ∙ bytes-append f (a + 1) n m)
    ∙ ap (bytes f a) longer

module _ (blksize : ℕ) (page : ℕ → Option (ℕ → ℕ)) (r : Range) (file : ℕ → ℕ) (contents : ℕ → ℕ → ℕ)
    (holds : (p o : ℕ) → o < blksize → contents p o ≡ file (p * blksize + o))
    (there : (p : ℕ) → p ≤ r.end_page → page p ≡ some (contents p))
    (inside : (r.start_cur < blksize) × (r.end_cur < blksize) × (blksize < 2 ^ 32)) where
  bytes_page :
      (p o n : ℕ) → o + n ≤ blksize → bytes (contents p) o n ≡ bytes file (p * blksize + o) n
  unfolding bytes
  bytes_page p o zero l = refl
  bytes_page p o (suc n) l =
      ap₂ (λ x xs. x ∷ xs) (holds p o (omega (arith, l)))
        (bytes_page p (o + 1) n (omega (arith, l)) ∙ ap (λ a. bytes file a n) (omega arith))

  copy_page-last :
      (p : ℕ)
      → r.start_page < p
      → p ≡ r.end_page
      → copy_page blksize page r p (contents p) ≡ bytes (contents p) 0 r.end_cur
  unfolding copy_page
  copy_page-last p l e =
      rw (==_ne p r.start_page (λ z. omega (arith, l, z)), (==_iff p r.end_page).1 e) refl

  copy_page-middle :
      (p : ℕ)
      → r.start_page < p
      → p < r.end_page
      → copy_page blksize page r p (contents p) ≡ bytes (contents p) 0 blksize
  unfolding copy_page
  copy_page-middle p l h =
      rw
        (
          ==_ne p r.start_page (λ z. omega (arith, l, z)),
          ==_ne p r.end_page (λ z. omega (arith, h, z)),
        )
        refl

  copied-there :
      (p : ℕ) (rest : List ℕ)
      → p ≤ r.end_page
      → copied blksize page r p (page p) rest ≡ copy_page blksize page r p (contents p) ++ rest
  unfolding copied
  copied-there p rest h = rw (there p h) refl

  next_page : (p : ℕ) → (p + 1) * blksize ≡ p * blksize + blksize
  next_page p = simp unary_clauses (omega arith)

  one_more : (n : ℕ) → suc n * blksize ≡ blksize + n * blksize
  one_more n = grind arith

  -- The pages behind the first one.
  later_pages :
      (n p : ℕ)
      → p + n ≡ r.end_page
      → r.start_page < p
      → read_pages blksize page r (suc n) p ≡ bytes file (p * blksize) (n * blksize + r.end_cur)
  unfolding read_pages
  later_pages zero p e l =
      copied-there p [] (omega (arith, e))
      ∙ ap (λ xs. xs ++ [])
          (copy_page-last p l (omega (arith, e))
            ∙ bytes_page p 0 r.end_cur (omega (arith, inside.1)))
      ∙ ap (λ xs. bytes file (p * blksize + 0) r.end_cur ++ xs) no_bytes
      ∙ bytes-append file (p * blksize + 0) r.end_cur 0
      ∙ ap₂ (bytes file) (omega arith) (simp unary_clauses (omega arith))
    where
      no_bytes : [] ≡ bytes file (p * blksize + 0 + r.end_cur) 0
      no_bytes = unfold bytes in refl
  later_pages (suc n) p e l =
      copied-there p _ (omega (arith, e))
      ∙ ap₂ (λ xs ys. xs ++ ys)
          (copy_page-middle p l (omega (arith, e)) ∙ bytes_page p 0 blksize (omega arith))
          (later_pages n (p + 1) (omega (arith, e)) (omega (arith, l)))
      ∙ ap (λ a. bytes file (p * blksize + 0) blksize ++ bytes file a (n * blksize + r.end_cur))
          (next_page p ∙ omega arith)
      ∙ bytes-append file (p * blksize + 0) blksize (n * blksize + r.end_cur)
      ∙ ap₂ (bytes file) (omega arith) (omega (arith, one_more n))

  distribute : (p n : ℕ) → (p + suc n) * blksize ≡ p * blksize + (blksize + n * blksize)
  distribute p n = grind arith

  append_nil : (xs : List ℕ) → xs ++ [] ≡ xs
  append_nil [] = refl
  append_nil (x ∷ xs) = ap (λ ys. x ∷ ys) (append_nil xs)

  -- The first page, and those behind it.
  all_pages :
      (n : ℕ)
      → r.start_page + n ≡ r.end_page
      → r.start_page * blksize + r.start_cur ≤ r.end_page * blksize + r.end_cur
      → read_pages blksize page r (suc n) r.start_page
        ≡ bytes file
            (r.start_page * blksize + r.start_cur)
            (r.end_page * blksize + r.end_cur - (r.start_page * blksize + r.start_cur))
  unfolding read_pages copy_page
  all_pages zero e l =
      copied-there r.start_page [] (omega (arith, e))
      ∙ ap (λ xs. xs ++ [])
          (copy_page-only (omega (arith, e))
            ∙ bytes_page r.start_page r.start_cur _ (omega (arith, inside.0, inside.1, only_cur)))
      ∙ append_nil _
      ∙ ap (bytes file (r.start_page * blksize + r.start_cur)) only_length
    where
      same : r.start_page * blksize ≡ r.end_page * blksize
      same = ap (λ p. p * blksize) (omega (arith, e))

      only_cur : r.start_cur ≤ r.end_cur
      only_cur = omega (arith, l, same)

      only_length :
          r.end_cur - r.start_cur
          ≡ r.end_page * blksize + r.end_cur - (r.start_page * blksize + r.start_cur)
      only_length = omega (arith, same)

      copy_page-only :
          r.start_page ≡ r.end_page
          → copy_page blksize page r r.start_page (contents r.start_page)
            ≡ bytes (contents r.start_page) r.start_cur (r.end_cur - r.start_cur)
      copy_page-only z =
          rw (==_refl r.start_page, (==_iff r.start_page r.end_page).1 z)
            (ap (bytes (contents r.start_page) r.start_cur)
              (omega (arith, only_cur, inside.1, inside.2)))
  all_pages (suc n) e l =
      copied-there r.start_page _ (omega (arith, e))
      ∙ ap₂ (λ xs ys. xs ++ ys)
          (copy_page-first (λ z. omega (arith, e, z))
            ∙ bytes_page r.start_page r.start_cur _ (omega (arith, inside.0)))
          (later_pages n (r.start_page + 1) (omega (arith, e)) (omega arith))
      ∙ ap
          (λ a.
            bytes file (r.start_page * blksize + r.start_cur) (blksize - r.start_cur)
            ++ bytes file a (n * blksize + r.end_cur))
          (next_page r.start_page ∙ omega (arith, inside.0))
      ∙ bytes-append file (r.start_page * blksize + r.start_cur) (blksize - r.start_cur)
          (n * blksize + r.end_cur)
      ∙ ap (bytes file (r.start_page * blksize + r.start_cur)) all_length
    where
      spread : r.end_page * blksize ≡ r.start_page * blksize + (blksize + n * blksize)
      spread = ap (λ p. p * blksize) (sym e) ∙ distribute r.start_page n

      all_length :
          blksize - r.start_cur + (n * blksize + r.end_cur)
          ≡ r.end_page * blksize + r.end_cur - (r.start_page * blksize + r.start_cur)
      all_length = omega (arith, spread, inside.0)

      copy_page-first :
          r.start_page ≢ r.end_page
          → copy_page blksize page r r.start_page (contents r.start_page)
            ≡ bytes (contents r.start_page) r.start_cur (blksize - r.start_cur)
      copy_page-first z =
          rw (==_refl r.start_page, ==_ne r.start_page r.end_page z)
            (ap (bytes (contents r.start_page) r.start_cur) (omega (arith, inside.0, inside.2)))

quotient_mono : (b x y : ℕ) → 0 < b → x ≤ y → x / b ≤ y / b
quotient_mono b x y h l = elim (Bool-cases (ltb (y / b) (x / b))) [
  | inr z ↦ ground (arith, z)
  | inl z ↦
      let k : ℕ = x / b - y / b - 1 in
      let e : y / b + suc k ≡ x / b = omega (arith, ltb→lt (y / b) (x / b) z) in
      let s : x / b * b ≡ y / b * b + (b + k * b) = ap (λ q. q * b) (sym e) ∙ spread (y / b) k in
      absurd (omega (arith, s, l, div-add-mod' x b, div-add-mod' y b, mod-lt y h))
]
  where
    spread : (p n : ℕ) → (p + suc n) * b ≡ p * b + (b + n * b)
    spread p n = grind arith

-- A read returns the bytes of the file up to `read_limit`.
pub up_to_limit :
    (blksize i_size pos count : ℕ) (page : ℕ → Option (ℕ → ℕ)) (file : ℕ → ℕ) (contents : ℕ → ℕ → ℕ)
    → 0 < blksize
    → blksize < 2 ^ 32
    → pos ≤ read_limit i_size pos count
    → ((p o : ℕ) → o < blksize → contents p o ≡ file (p * blksize + o))
    → ((p : ℕ) → p ≤ read_limit i_size pos count / blksize → page p ≡ some (contents p))
    → generic_file_read blksize i_size page pos count
      ≡ bytes file pos (read_limit i_size pos count - pos)
unfolding generic_file_read read_range
up_to_limit blksize i_size pos count page file contents h w l holds there =
    ap (λ n. read_pages blksize page r n r.start_page) rounds
    ∙ all_pages blksize page r file contents holds there (mod-lt pos h, mod-lt limit h, w)
        (r.end_page - r.start_page) (omega (arith, quotient_mono blksize pos limit h l))
        (omega (arith, l, div-add-mod' pos blksize, div-add-mod' limit blksize))
    ∙ ap₂ (λ a b. bytes file a (b - a)) (div-add-mod' pos blksize) (div-add-mod' limit blksize)
  where
    limit : ℕ
    limit = read_limit i_size pos count

    r : Range
    r = read_range blksize i_size pos count

    rounds : r.end_page + 1 - r.start_page ≡ suc (r.end_page - r.start_page)
    rounds = omega (arith, quotient_mono blksize pos limit h l)
