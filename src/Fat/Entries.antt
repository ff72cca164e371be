-- ===== src/Fat/Entries.antt =====
-- `get_fat_entry_value`: the table is a map from clusters to numbers.
use os_final_program.Base.{
  ℕ, ◌+◌, ◌^◌, ◌<◌, ◌≡◌, refl, sym, ap, subst, ◌∙◌, ◌≢◌, Option, none, some, List, arith, length,
  u32, low_bits,
}
use os_final_program.Bytes.{get_u32}
use os_final_program.FsCache.{no_block}
use os_final_program.FsCache.Coherent.{Coherent, Shows}
use os_final_program.FsCache.Read.{Reads, fs_read-Reads}
use os_final_program.Fat.Disk.{Sectors, InTable}
use os_final_program.Fat.{
  FatInfo, cluster_to_fat_entry, fat_sector, fat_offset, table_device, FatCache, fat_buf_num,
  read_fat_sector, entry_value, get_fat_entry_value,
}

-- The entry of a cluster is a word of the sector, and only those of 128 clusters are in it.
pub some_inj : {a b : ℕ} → some a ≡ some b → a ≡ b
some_inj e = ap (λ o. elim o [ none ↦ 0 | some x ↦ x ]) e

module _ (d : Sectors) (g : FatInfo) where
  abbrev pub Shown : FatCache d g → ℕ → List ℕ → Type 0
  Shown c a x = Shows (table_device d g) fat_buf_num c.bufs c.disk a x

  -- The sectors of the entries that the operations use.
  abbrev pub InFat : ℕ → Type 0
  InFat clus =
      (clus < 2 ^ 30)
      × InTable d (g.reserved_sectors + g.base_addr) g.num_of_sectors_per_fat (fat_sector g clus)
      × (fat_sector g clus ≢ no_block)

  -- The entry of a cluster, to a client of the cache.
  unfoldable pub Entry : FatCache d g → ℕ → ℕ → Type 0
  Entry c clus value =
      (x : List ℕ) × Shown c (fat_sector g clus) x
      × (length x ≡ 512)
      × (low_bits (get_u32 x (fat_offset g clus)) 28 ≡ value)

  -- The cache is coherent and its clock head is in range.
  pub record FatWf (c : FatCache d g) : Type 0 where
    pub coherent : Coherent (table_device d g) fat_buf_num c.bufs c.disk
    pub head_in_range : c.clock_head < fat_buf_num

  -- The read of a sector that succeeds.
  pub read_fat_sector-Reads :
      (c : FatCache d g) (clus k : ℕ)
      → FatWf c
      → InFat clus
      → (read_fat_sector d g c (fat_sector g clus)).0 ≡ some k
      → Reads
          (table_device d g)
          fat_buf_num
          c
          (fat_sector g clus)
          k
          (read_fat_sector d g c (fat_sector g clus)).1
  unfolding read_fat_sector
  read_fat_sector-Reads c clus k wf i ok =
      subst
        (λ a.
          Reads (table_device d g) fat_buf_num c a k (read_fat_sector d g c (fat_sector g clus)).1)
        same
        (fs_read-Reads (table_device d g) 0 fat_buf_num (fat_sector g clus) k c wf.coherent
          wf.head_in_range (subst (InTable d _ _) (sym same) i.1) (λ e. i.2 (sym same ∙ e)) ok)
    where
      same : u32 (fat_sector g clus + 0) ≡ fat_sector g clus
      same = unfold cluster_to_fat_entry in omega arith

  -- All entries stay.
  pub record SameEntries (c c' : FatCache d g) : Type 0 where
    pub wf : FatWf c'
    pub keeps : (e w : ℕ) → InFat e → Entry c e w → Entry c' e w

  Reads-SameEntries :
      (c c' : FatCache d g) (a k : ℕ)
      → Reads (table_device d g) fat_buf_num c a k c'
      → SameEntries c c'
  unfolding Entry
  Reads-SameEntries c c' a k r = record {
    wf = record { coherent = r.coherent; head_in_range = r.head_in_range };
    keeps = λ e w i (x, s, l, v). (x, r.keeps (fat_sector g e) x i.1 i.2 s, l, v);
  }

  -- A look-up that succeeds returns the cluster's entry, and all entries stay.
  pub get_fat_entry_value-Entry :
      (c : FatCache d g) (clus value w : ℕ)
      → FatWf c
      → InFat clus
      → Entry c clus w
      → (get_fat_entry_value d g c clus).0 ≡ some value
      → (value ≡ w) × SameEntries c (get_fat_entry_value d g c clus).1
  unfolding get_fat_entry_value Entry
  get_fat_entry_value-Entry c clus value w wf i h =
      go (read_fat_sector d g c (fat_sector g clus))
        (λ k ok. read_fat_sector-Reads c clus k wf i ok)
    where
      go :
          (r : Option ℕ × FatCache d g)
          → ((k : ℕ)
              → r.0 ≡ some k
              → Reads (table_device d g) fat_buf_num c (fat_sector g clus) k r.1)
          → (entry_value d g (fat_offset g clus) r).0 ≡ some value
          → (value ≡ w) × SameEntries c (entry_value d g (fat_offset g clus) r).1
      go (none, c') f ok = cc
      go (some k, c') f ok =
          let r = f k refl in
          let same : (c'.bufs k).block ≡ h.0 = unfold Entry in r.shown h.0 h.1 in
          unfold Entry in
          (
            sym (some_inj ok) ∙ ap (λ b. low_bits (get_u32 b (fat_offset g clus)) 28) same ∙ h.3,
            Reads-SameEntries c c' _ k r,
          )
