-- ===== src/FsCache/Disk.antt =====
-- The block device under the cache, `read_block` and `write_block` of kernel/vfs/utils.c with the
-- number of sectors of one block: the SD driver of kernel/driver/sd.c, which the model takes as
-- a parameter.
use os_final_program.Base.{ℕ, ◌≡◌, ◌≢◌, Bool, true}

-- `read` is given what the buffer holds, since a failing transfer may leave anything there. The
-- addresses of the blocks are the `Grid`: for sectors all of them, for clusters the first
-- sectors, so that two blocks do not overlap.
pub record Device : Type 1 where
  pub St : Type 0
  pub B : Type 0
  pub Grid : ℕ → Type 0
  pub zeros : B
  pub read : St → ℕ → B → Bool × B
  pub write : St → ℕ → B → Bool × St
  -- A block that was written without an error is read back.
  pub read-write :
      (s : St) (a : ℕ) (b c : B)
      → Grid a
      → (write s a b).0 ≡ true
      → read (write s a b).1 a c ≡ (true, b)
  -- A write, failing or not, leaves the other blocks alone.
  pub read-write_ne :
      (s : St) (a a' : ℕ) (b c : B)
      → Grid a
      → Grid a'
      → a ≢ a'
      → read (write s a b).1 a' c ≡ read s a' c
  -- A transfer without an error fills the whole buffer.
  pub read_same : (s : St) (a : ℕ) (b c : B) → (read s a b).0 ≡ true → read s a c ≡ read s a b
