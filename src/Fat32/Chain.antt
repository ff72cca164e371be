-- ===== src/Fat32/Chain.antt =====
-- The pages of an inode and the chain of its clusters.
use os_final_program.Base.{
  ℕ, zero, suc, ◌+◌, ◌*◌, ◌/◌, ◌%◌, ◌≤◌, ◌<◌, ◌≡◌, refl, ap, ap₂, ◌∙◌, ◌≢◌, some, List, [], ◌∷◌,
  arith, ==_ne, length, get_or, u32, shr, low_bits,
}
use os_final_program.Bytes.{get_u32}
use os_final_program.Fat32.{Volume, read_fat, count_blocks, root_pages, lookup_pages, fat32_bmap}

module _ (v : Volume) (sectors : ℕ → List ℕ) where
  -- The byte `n` of the table, which lies on the disk from sector `fat_base` on, in sectors of 512 bytes.
  abbrev pub table_byte : ℕ → ℕ
  table_byte n = get_or (sectors (v.fat_base + n / 512)) (n % 512) 0

  -- The entry of a cluster: the 32-bit word in four bytes of the table, the lowest first.
  unfoldable pub fat_word : ℕ → ℕ
  fat_word clu = u32 (
      table_byte (4 * clu)
      + table_byte (4 * clu + 1) * 256
      + table_byte (4 * clu + 2) * 65536
      + table_byte (4 * clu + 3) * 16777216)

  -- The clusters from one on, each the table's entry of the one before it, up to the entry 0x0fffffff.
  pub data Chain : ℕ → List ℕ → Type 0 where
    ends : Chain 268435455 []
    goes_on :
        {clu : ℕ} {clus : List ℕ}
        → clu ≢ 268435455
        → Chain (fat_word clu) clus
        → Chain clu (clu ∷ clus)

module _ (v : Volume) (sectors : ℕ → List ℕ) (fits : v.fat_base + 33554432 ≤ 4294967296) where
  same_sector :
      (clu n o : ℕ)
      → n / 512 ≡ clu / 128
      → n % 512 ≡ o
      → clu < 4294967296
      → get_or (sectors (u32 (v.fat_base + shr clu 7))) o 0 ≡ table_byte v sectors n
  same_sector clu n o e k l =
      ap₂ (λ a b. get_or (sectors a) b 0) (omega (arith, fits)) (omega arith)

  read_fat-fat_word : (clu : ℕ) → clu < 4294967296 → read_fat v sectors clu ≡ fat_word v sectors clu
  unfolding read_fat fat_word get_u32
  read_fat-fat_word clu l =
      let o : ℕ = low_bits clu 7 * 4 in
      let b0 = same_sector clu (4 * clu) o (omega arith) (omega arith) l in
      let b1 = same_sector clu (4 * clu + 1) (o + 1) (omega arith) (omega arith) l in
      let b2 = same_sector clu (4 * clu + 2) (o + 2) (omega arith) (omega arith) l in
      let b3 = same_sector clu (4 * clu + 3) (o + 3) (omega arith) (omega arith) l in
      rw (b0, b1, b2, b3) refl

  fat_word-bound : (clu : ℕ) → fat_word v sectors clu < 4294967296
  unfolding fat_word
  fat_word-bound clu = omega arith

  count_blocks-length :
      (n clu blocks : ℕ) (clus : List ℕ)
      → Chain v sectors clu clus
      → clu < 4294967296
      → length clus < n
      → count_blocks v sectors n clu blocks ≡ some (blocks + length clus)
  unfolding count_blocks
  count_blocks-length zero clu blocks clus c b l = absurd (omega (arith, l))
  count_blocks-length (suc n) clu blocks clus ends b l = ap some (omega arith)
  count_blocks-length (suc n) clu blocks clus (goes_on u c) b l =
      rw (==_ne clu 268435455 u, read_fat-fat_word clu b)
        (count_blocks-length n (fat_word v sectors clu) (blocks + 1) _ c (fat_word-bound clu)
            (omega (arith, l))
          ∙ ap some (omega arith))

  root_pages-Chain :
      (clu : ℕ) (clus : List ℕ)
      → Chain v sectors clu clus
      → clu < 4294967296
      → root_pages v sectors (length clus) clu ≡ clus
  unfolding root_pages
  root_pages-Chain clu clus ends b = refl
  root_pages-Chain clu clus (goes_on u c) b =
      rw (read_fat-fat_word clu b) (ap (λ x. clu ∷ x) (root_pages-Chain _ _ c (fat_word-bound clu)))

  lookup_page : (n clu k : ℕ) → k < n → fat32_bmap (lookup_pages v sectors n clu) k ≡ clu
  unfolding lookup_pages fat32_bmap
  lookup_page zero clu k l = absurd (omega arith)
  lookup_page (suc n) clu zero l = refl
  lookup_page (suc n) clu (suc k) l = lookup_page n clu k (omega (arith, l))

  -- The table's 2^25 sectors lie below sector 2^32, and the chain starts at a 32-bit word. For the chain of a
  -- file's clusters, which the little-endian words of the table give: the count of its blocks,
  -- given more rounds than the chain has clusters, is the chain's length, and the pages of the root
  -- directory are the chain; the pages of an inode that is looked up are all the first cluster.
  pub pages_of_Chain :
      (clu : ℕ) (clus : List ℕ) (n : ℕ)
      → Chain v sectors clu clus
      → clu < 4294967296
      → length clus < n
      → (count_blocks v sectors n clu 0 ≡ some (length clus))
        × (root_pages v sectors (length clus) clu ≡ clus)
        × ((k : ℕ)
            → k < length clus
            → fat32_bmap (lookup_pages v sectors (length clus) clu) k ≡ clu)
  pages_of_Chain clu clus n c b l = (
    count_blocks-length n clu 0 clus c b l ∙ ap some (omega arith),
    root_pages-Chain clu clus c b,
    lookup_page (length clus) clu,
  )
