-- ===== src/Bootmm/Insert.antt =====
-- What `insert_mminfo` records: the union of the old regions and the new one.
use os_final_program.Base.{
  ℕ, zero, suc, ◌+◌, ◌≤◌, ◌<◌, ◌≡◌, refl, sym, ◌∙◌, ◌≢◌, inl, inr, Bool, true, false, ◌&&◌, ◌||◌,
  List, [], ◌∷◌, ◌++◌, arith, ltb, leb, ◌==◌, ltb→lt, ==_iff, Bool-cases, length, get_or, set, u32,
  sub32, word_max,
}
use mathlib.Core.Bool.{or_assoc}
use os_final_program.Bootmm.Info.{
  MmInfo, Scan, merged, stopped, insert_mminfo, merge_after, no_info, push_scan, scan_infos,
  after_scan, add_info, failed, overrun, max_info,
}

abbrev pub within : ℕ → ℕ → ℕ → ℕ → ℕ → Bool
within start end type t a = (type == t) && (leb start a && leb a end)

-- Address `a` is recorded with usage `t`.
abbrev pub covers : List MmInfo → ℕ → ℕ → Bool
covers [] t a = false
covers (x ∷ xs) t a = within x.start x.end x.type t a || covers xs t a

-- The regions are not empty and end below the last word.
abbrev pub Regions : List MmInfo → Type 0
Regions [] = Unit {0}
Regions (x ∷ xs) = (x.start ≤ x.end) × (x.end < word_max) × Regions xs

covers-append :
    (xs ys : List MmInfo) (t a : ℕ) → covers (xs ++ ys) t a ≡ (covers xs t a || covers ys t a)
covers-append [] ys t a = refl
covers-append (x ∷ xs) ys t a = ground (arith, covers-append xs ys t a)

-- A region that follows or precedes another joins it.
join :
    (s e s' e' type t a : ℕ)
    → s ≤ e
    → s' ≤ e'
    → suc e ≡ s'
    → within s e' type t a ≡ (within s e type t a || within s' e' type t a)
join s e s' e' type t a h k j = ground arith

both : (b c : Bool) → (b && c) ≡ true → (b ≡ true) × (c ≡ true)
both b c e = ground arith

module _ (start end type t a : ℕ) (h : start ≤ end) (k : end < word_max) where
  new : Bool
  new = within start end type t a

  Adds : List MmInfo → Scan → Type 0
  Adds xs (merged s ys) = covers ys t a ≡ (covers xs t a || new)
  Adds xs (stopped i) = Unit {0}

  forward_join :
      (x : MmInfo) (c : Bool)
      → x.start ≤ x.end
      → x.end < word_max
      → x.type ≡ type
      → x.end ≡ sub32 start 1
      → (within x.start end x.type t a || c) ≡ ((within x.start x.end x.type t a || c) || new)
  unfolding new
  forward_join x c p q e f =
      ground (arith, join x.start x.end start end x.type t a p h (omega arith))

  backward_join :
      (x : MmInfo) (c : Bool)
      → x.start ≤ x.end
      → x.type ≡ type
      → x.start ≡ end + 1
      → (within start x.end x.type t a || c) ≡ ((within x.start x.end x.type t a || c) || new)
  unfolding new
  backward_join x c p e f =
      ground (arith, join start end x.start x.end x.type t a h p (omega arith))

  twoway_join :
      (x y : MmInfo) (c : Bool)
      → x.start ≤ x.end
      → x.end < word_max
      → y.start ≤ y.end
      → x.type ≡ type
      → x.end ≡ sub32 start 1
      → y.type ≡ type
      → y.start ≡ end + 1
      → (within x.start y.end x.type t a || c)
        ≡ ((within x.start x.end x.type t a || (within y.start y.end y.type t a || c)) || new)
  unfolding new
  twoway_join x y c p q r e f g i = ground (
    arith,
    join x.start x.end start end x.type t a p h (omega arith),
    join x.start end y.start y.end x.type t a (omega arith) r (omega arith),
  )

  merge_after-Adds :
      (x : MmInfo) (xs : List MmInfo)
      → Regions (x ∷ xs)
      → x.type ≡ type
      → x.end ≡ sub32 start 1
      → Adds (x ∷ xs) (merge_after end type x xs)
  unfolding Adds merge_after
  merge_after-Adds x [] (p, q, r) e f = forward_join x false p q e f
  merge_after-Adds x (y ∷ ys) (p, q, r) e f =
      elim (Bool-cases ((y.type == type) && (y.start == u32 (end + 1)))) [
        | inl b ↦
            let (yt, ys') = both _ _ b in
            rw b (
              twoway_join x y (covers ys t a) p q r.0 e f ((==_iff y.type type).0 yt)
                ((==_iff y.start _).0 ys' ∙ omega arith))
        | inr b ↦ rw b (forward_join x _ p q e f)
      ]

  push_scan-Adds :
      (x : MmInfo) (xs : List MmInfo) (r : Scan) → Adds xs r → Adds (x ∷ xs) (push_scan x r)
  unfolding Adds push_scan
  push_scan-Adds x xs (merged s ys) e = ground arith
  push_scan-Adds x xs (stopped i) e = tt

  scan_infos-Adds :
      (i : ℕ) (xs : List MmInfo) → Regions xs → Adds xs (scan_infos start end type i xs)
  unfolding scan_infos
  scan_infos-Adds i [] r = unfold Adds in tt
  scan_infos-Adds i (x ∷ xs) r = elim (Bool-cases (ltb start x.start)) [
    | inl b ↦ rw b (unfold Adds in tt)
    | inr b ↦ elim (Bool-cases (x.type == type)) [
      | inr n ↦ rw (b, n) (push_scan-Adds x xs _ (scan_infos-Adds (i + 1) xs r.2))
      | inl m ↦ elim (Bool-cases (x.end == sub32 start 1)) [
        | inl e ↦
            rw (b, m, e) (merge_after-Adds x xs r ((==_iff x.type type).0 m) ((==_iff x.end _).0 e))
        | inr e ↦ rw (b, m, e) (push_scan-Adds x xs _ (scan_infos-Adds (i + 1) xs r.2))
      ]
    ]
  ]

  set_start-Adds :
      (xs : List MmInfo) (i : ℕ)
      → i < length xs
      → Regions xs
      → (get_or xs i no_info).type ≡ type
      → (get_or xs i no_info).start ≡ end + 1
      → covers (set xs i (record (get_or xs i no_info) { start = start })) t a
        ≡ (covers xs t a || new)
  set_start-Adds [] i l r e f = absurd (omega arith)
  set_start-Adds (x ∷ xs) zero l r e f = backward_join x (covers xs t a) r.0 e f
  set_start-Adds (x ∷ xs) (suc i) l r e f =
      rw (set_start-Adds xs i (omega arith) r.2 e f)
        (sym (or_assoc (within x.start x.end x.type t a) (covers xs t a) new))

-- An insertion of a region that is not empty and ends below the last word, among such regions, and
-- that neither fails nor writes past the array, records exactly the addresses that were recorded
-- and, with its usage, those of the new region.
pub insert_mminfo-covers :
    (infos : List MmInfo) (start end type : ℕ)
    → Regions infos
    → start ≤ end
    → end < word_max
    → (insert_mminfo infos start end type).0 ≢ failed
    → (insert_mminfo infos start end type).0 ≢ overrun
    → (t a : ℕ)
    → covers (insert_mminfo infos start end type).1 t a
      ≡ (covers infos t a || within start end type t a)
unfolding insert_mminfo after_scan add_info
insert_mminfo-covers infos start end type r h k nf nv t a =
    go (scan_infos start end type 0 infos) (scan_infos-Adds start end type t a h k 0 infos r) nf nv
  where
    appended :
        covers (infos ++ (record { start = start; end = end; type = type } ∷ [])) t a
        ≡ (covers infos t a || within start end type t a)
    appended = covers-append infos _ t a ∙ ground arith

    added :
        (add_info start end type infos).0 ≢ overrun
        → covers (add_info start end type infos).1 t a
          ≡ (covers infos t a || within start end type t a)
    added = elim (Bool-cases (leb max_info (length infos))) [
      | inl b ↦ rw b (λ n. absurd (n refl))
      | inr b ↦ rw b (λ n. appended)
    ]

    go :
        (s : Scan)
        → Adds start end type t a h k infos s
        → (after_scan start end type infos s).0 ≢ failed
        → (after_scan start end type infos s).0 ≢ overrun
        → covers (after_scan start end type infos s).1 t a
          ≡ (covers infos t a || within start end type t a)
    go (merged s ys) o = unfold Adds new in λ nf nv. o
    go (stopped i) o = elim (Bool-cases (leb max_info i)) [
      | inl b ↦ rw b (λ n. absurd (n refl))
      | inr b ↦
          elim (Bool-cases (
            ltb i (length infos)
            && (((get_or infos i no_info).type == type)
                && ((get_or infos i no_info).start == u32 (end + 1))))) [
                  | inr c ↦ rw (b, c) (λ nf nv. added nv)
                  | inl c ↦
                      let (ci, cr) = both (ltb i (length infos)) _ c in
                      let (ct, cs) = both ((get_or infos i no_info).type == type) _ cr in
                      rw (b, c)
                        (λ nf nv.
                          unfold new in
                          set_start-Adds start end type t a h k infos i (ltb→lt _ _ ci) r
                            ((==_iff _ type).0 ct) ((==_iff _ _).0 cs ∙ omega arith))
                ]
    ]
