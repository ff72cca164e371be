-- ===== src/Fat/Alloc/Erase.antt =====
-- Sectors outside of the table are written.
use os_final_program.Base.{
  ℕ, zero, suc, ◌+◌, ◌^◌, ◌≤◌, ◌<◌, ◌≡◌, refl, ◌∙◌, ◌≢◌, ◌⊎◌, inl, inr, Bool, true, false, List,
  arith, ltb, ltb→lt, Bool-cases, replicate, u32,
}
use os_final_program.FsCache.Coherent.{Shows}
use os_final_program.Fat.Disk.{Sectors, InTable}
use os_final_program.Fat.{FatInfo, FatCache, table_device, fat_sector, fat_buf_num}
use os_final_program.Fat.Entries.{Entry, FatWf, SameEntries}
use os_final_program.Fat.Alloc.{erase, next_erase}

module _ (d : Sectors) where
  open d use {St, read, write, read-write_ne}

  pub erase-others :
      (n a t : ℕ) (s : St) (b : List ℕ)
      → a + n ≤ 2 ^ 32
      → (t < a) ⊎ (a + n ≤ t)
      → read (erase d n s a).1 t b ≡ read s t b
  unfolding erase
  erase-others zero a t s b l o = refl
  erase-others (suc n) a t s b l o =
      go (write s a (replicate 512 0)) (read-write_ne s a t (replicate 512 0) b (apart o))
        (λ s'. erase-others n (u32 (a + 1)) t s' b (next l) (further n l o))
    where
      apart : (t < a) ⊎ (a + suc n ≤ t) → a ≢ t
      apart (inl h) e = omega (arith, h, e)
      apart (inr h) e = omega (arith, h, e)

      next : a + suc n ≤ 2 ^ 32 → u32 (a + 1) + n ≤ 2 ^ 32
      next l = omega (arith, l)

      further :
          (n : ℕ)
          → a + suc n ≤ 2 ^ 32
          → (t < a) ⊎ (a + suc n ≤ t)
          → (t < u32 (a + 1)) ⊎ (u32 (a + 1) + n ≤ t)
      further zero l o = elim (Bool-cases (ltb t (u32 (a + 1)))) [
        | inl z ↦ inl (ltb→lt _ _ z)
        | inr z ↦ inr (ground (arith, z))
      ]
      further (suc n) l (inl h) = inl (omega (arith, l, h))
      further (suc n) l (inr h) = inr (omega (arith, l, h))

      go :
          (r : Bool × St)
          → read r.1 t b ≡ read s t b
          → ((s' : St) → read (erase d n s' (u32 (a + 1))).1 t b ≡ read s' t b)
          → read (next_erase d (λ s'. erase d n s' (u32 (a + 1))) r).1 t b ≡ read s t b
      go (true, s') e f = f s' ∙ e
      go (false, s') e f = e

  module _ (g : FatInfo) (c : FatCache d g) (s' : St)
      (same : (a : ℕ) (b : List ℕ)
        → InTable d (g.reserved_sectors + g.base_addr) g.num_of_sectors_per_fat a
        → read s' a b ≡ read c.disk a b) where
    -- The table's sectors on the disk are the same.
    pub same_table-SameEntries : FatWf d g c → SameEntries d g c (record c { disk = s' })
    unfolding Entry Shows
    same_table-SameEntries wf = record {
      wf = record {
        coherent = record {
          grid = wf.coherent.grid;
          distinct = wf.coherent.distinct;
          clean = λ i l u n b.
              same (c.bufs i).cur b (wf.coherent.grid i l u) ∙ wf.coherent.clean i l u n b;
        };
        head_in_range = wf.head_in_range;
      };
      keeps = λ e w i (x, s, l, v). (x, moved (fat_sector g e) x i.1 s, l, v);
    }
      where
        moved :
            (a : ℕ) (x : List ℕ)
            → InTable d (g.reserved_sectors + g.base_addr) g.num_of_sectors_per_fat a
            → Shows (table_device d g) fat_buf_num c.bufs c.disk a x
            → Shows (table_device d g) fat_buf_num c.bufs s' a x
        moved a x i (inl y) = inl y
        moved a x i (inr (out, r)) = inr (out, λ b. same a b i ∙ r b)
