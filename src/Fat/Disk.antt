-- ===== src/Fat/Disk.antt =====
-- The sectors of the disk that the FAT file system reads and writes, and the device of its table, whose
-- writes go to the table and to its copy.
use os_final_program.Base.{
  ℕ, ◌+◌, ◌^◌, ◌≤◌, ◌<◌, ◌≡◌, refl, sym, ap, ◌∙◌, ◌≢◌, Bool, true, false, List, arith, replicate,
  u32,
}
use os_final_program.FsCache.Disk.{Device}

-- `read_block` and `write_block` of one sector, with what they rely on the SD driver for.
pub record Sectors : Type 1 where
  pub St : Type 0
  pub read : St → ℕ → List ℕ → Bool × List ℕ
  pub write : St → ℕ → List ℕ → Bool × St
  -- A sector that was written without an error is read back.
  pub read-write :
      (s : St) (a : ℕ) (b c : List ℕ)
      → (write s a b).0 ≡ true
      → read (write s a b).1 a c ≡ (true, b)
  -- A write, failing or not, leaves the other sectors alone.
  pub read-write_ne :
      (s : St) (a a' : ℕ) (b c : List ℕ) → a ≢ a' → read (write s a b).1 a' c ≡ read s a' c
  -- A transfer without an error fills the whole buffer.
  pub read_same : (s : St) (a : ℕ) (b c : List ℕ) → (read s a b).0 ≡ true → read s a c ≡ read s a b

module _ (d : Sectors) (first size : ℕ) where
  open d use {St, read, write, read-write, read-write_ne, read_same}

  write_copy : ℕ → List ℕ → Bool × St → Bool × St
  write_copy a b (true, s) = write s (u32 (size + a)) b
  write_copy a b (false, s) = (false, s)

  -- The writes of `write_fat_sector`, for tables of `size` sectors.
  pub write_both : St → ℕ → List ℕ → Bool × St
  unfolding write_copy
  write_both s a b = write_copy a b (write s a b)

  -- The sectors of the first table, with room for its copy behind it.
  unfoldable pub InTable : ℕ → Type 0
  InTable a = (first ≤ a) × (a < first + size) × (first + size + size ≤ 2 ^ 32)

  copy_apart : (a a' : ℕ) → InTable a → InTable a' → u32 (size + a) ≢ a'
  unfolding InTable
  copy_apart a a' g g' e = omega (arith, g.0, g.1, g.2, g'.1, e)

  saved_copy :
      (s : St) (a : ℕ) (b c : List ℕ)
      → InTable a
      → (r : Bool × St) → r ≡ write s a b
      → (write_copy a b r).0 ≡ true
      → read (write_copy a b r).1 a c ≡ (true, b)
  unfolding write_copy
  saved_copy s a b c g (true, s') e ok =
      read-write_ne s' (u32 (size + a)) a b c (copy_apart a a g g)
      ∙ ap (λ t. read t a c) (ap (λ t. t.1) e)
      ∙ read-write s a b c (sym (ap (λ t. t.0) e))
  saved_copy s a b c g (false, s') e ok = cc

  others_copy :
      (s : St) (a a' : ℕ) (b c : List ℕ)
      → InTable a
      → InTable a'
      → a ≢ a'
      → (r : Bool × St) → r ≡ write s a b
      → read (write_copy a b r).1 a' c ≡ read s a' c
  unfolding write_copy
  others_copy s a a' b c g g' n (true, s') e =
      read-write_ne s' (u32 (size + a)) a' b c (copy_apart a a' g g')
      ∙ ap (λ t. read t a' c) (ap (λ t. t.1) e)
      ∙ read-write_ne s a a' b c n
  others_copy s a a' b c g g' n (false, s') e =
      ap (λ t. read t a' c) (ap (λ t. t.1) e) ∙ read-write_ne s a a' b c n

  pub read-write_both :
      (s : St) (a : ℕ) (b c : List ℕ)
      → InTable a
      → (write_both s a b).0 ≡ true
      → read (write_both s a b).1 a c ≡ (true, b)
  unfolding write_both
  read-write_both s a b c g = saved_copy s a b c g (write s a b) refl

  pub read-write_both_ne :
      (s : St) (a a' : ℕ) (b c : List ℕ)
      → InTable a
      → InTable a'
      → a ≢ a'
      → read (write_both s a b).1 a' c ≡ read s a' c
  unfolding write_both
  read-write_both_ne s a a' b c g g' n = others_copy s a a' b c g g' n (write s a b) refl

  abbrev pub fat_device : Device
  fat_device = record {
    St = St;
    B = List ℕ;
    Grid = InTable;
    zeros = replicate 512 0;
    read = read;
    write = write_both;
    read-write = read-write_both;
    read-write_ne = read-write_both_ne;
    read_same = read_same;
  }
