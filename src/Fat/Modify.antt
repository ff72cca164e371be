-- ===== src/Fat/Modify.antt =====
-- `fs_modify_fat`.
use os_final_program.Base.{
  ℕ, ◌+◌, ◌*◌, ◌/◌, ◌%◌, ◌^◌, ◌<◌, ◌≡◌, refl, sym, ap, subst, ◌∙◌, ◌≢◌, ◌⊎◌, inl, inr, true, Option,
  none, some, List, arith, ltb, ◌==◌, if◌then◌else◌, ltb→lt, ==_iff, Bool-cases, length, u32, shr,
  shl, low_bits, bit_or-disjoint,
}
use os_final_program.Bytes.{get_u32, set_u32, byte_at}
use os_final_program.Bytes.LittleEndian.{get_u32-set_u32, get_u32_cong, get_u32_bound}
use os_final_program.FsCache.{update}
use os_final_program.FsCache.Read.{Reads}
use os_final_program.FsCache.Dirty.{written-Coherent, written-Shows, written-Shows_here}
use os_final_program.Fat.Disk.{Sectors}
use os_final_program.Fat.{
  FatInfo, cluster_to_fat_entry, fat_sector, fat_offset, table_device, FatCache, fat_buf_num,
  read_fat_sector, get_fat_entry_value, new_entry, set_entry, fs_modify_fat,
}
-- The entry of a cluster is a word of the sector, and only those of 128 clusters are in it.
use os_final_program.Fat.Entries.{
  Shown, InFat, Entry, FatWf, read_fat_sector-Reads, get_fat_entry_value-Entry,
}

fat_offset-fits : (g : FatInfo) (clus : ℕ) → fat_offset g clus + 3 < 512
unfolding cluster_to_fat_entry
fat_offset-fits g clus = omega arith

same_sector :
    (b c e : ℕ)
    → c < 2 ^ 30
    → e < 2 ^ 30
    → u32 (b + shr (shl c 2) 9) ≡ u32 (b + shr (shl e 2) 9)
    → c / 128 ≡ e / 128
same_sector b c e l m s =
    let p : shr (shl c 2) 9 ≡ c / 128 = omega (arith, l) in
    let q : shr (shl e 2) 9 ≡ e / 128 = omega (arith, m) in
    small (c / 128) (e / 128) b (omega (arith, l)) (omega (arith, m))
      (sym (ap (λ x. u32 (b + x)) p) ∙ s ∙ ap (λ x. u32 (b + x)) q)
  where
    small : (x y b : ℕ) → x < 2 ^ 23 → y < 2 ^ 23 → u32 (b + x) ≡ u32 (b + y) → x ≡ y
    small x y b l m e = omega (arith, l, m, e)

other_word :
    (g : FatInfo) (c e : ℕ)
    → c < 2 ^ 30
    → e < 2 ^ 30
    → c ≢ e
    → fat_sector g c ≡ fat_sector g e
    → (j : ℕ) → j < 4
    → (fat_offset g e + j < fat_offset g c) ⊎ (fat_offset g c + 3 < fat_offset g e + j)
unfolding cluster_to_fat_entry
other_word g c e l m n s j h =
    let q : c / 128 ≡ e / 128 =
      same_sector (g.reserved_sectors + g.base_addr) c e l m
        (swap_base _ c g.base_addr ∙ s ∙ sym (swap_base _ e g.base_addr)) in
    elim (Bool-cases (ltb c e)) [
      | inl z ↦ inr (after c e j l m (ltb→lt c e z) q)
      | inr z ↦ inl (before c e j l m (ground (arith, z, n)) q h)
    ]
  where
    swap_base : (r c b : ℕ) → u32 (r + b + shr (shl c 2) 9) ≡ u32 (r + shr (shl c 2) 9 + b)
    swap_base r c b = ap u32 (omega arith)

    after :
        (c e j : ℕ)
        → c < 2 ^ 30
        → e < 2 ^ 30
        → c < e
        → c / 128 ≡ e / 128
        → low_bits (shl c 2) 9 + 3 < low_bits (shl e 2) 9 + j
    after c e j l m n q = omega (arith, l, m, n, q)

    before :
        (c e j : ℕ)
        → c < 2 ^ 30
        → e < 2 ^ 30
        → e < c
        → c / 128 ≡ e / 128
        → j < 4
        → low_bits (shl e 2) 9 + j < low_bits (shl c 2) 9
    before c e j l m n q h = omega (arith, l, m, n, q, h)

entry_bits :
    (x v : ℕ) → x < 2 ^ 32 → (new_entry x v < 2 ^ 32) × (new_entry x v % 2 ^ 28 ≡ v % 2 ^ 28)
entry_bits x v h =
    let e : new_entry x v ≡ x / 2 ^ 28 * 2 ^ 28 + v % 2 ^ 28 =
      bit_or-disjoint 28 (x / 2 ^ 28) (v % 2 ^ 28) (omega arith) in
    (omega (arith, e, h), omega (arith, e))

module _ (d : Sectors) (g : FatInfo) where
  -- What setting the entry of `clus` makes of the entries.
  pub record Modifies (c : FatCache d g) (clus value : ℕ) (c' : FatCache d g) : Type 0 where
    pub wf : FatWf d g c'
    pub here : Entry d g c' clus (low_bits value 28)
    pub others : (e w : ℕ) → InFat d g e → e ≢ clus → Entry d g c e w → Entry d g c' e w

  set-Modifies :
      (c : FatCache d g) (clus value w : ℕ)
      → FatWf d g c
      → InFat d g clus
      → Entry d g c clus w
      → (c' : FatCache d g) (k : ℕ)
      → Reads (table_device d g) fat_buf_num c (fat_sector g clus) k c'
      → Modifies c clus value (set_entry d g (fat_offset g clus) value (some k, c')).1
  unfolding set_entry Entry
  set-Modifies c clus value w wf i h c' k r = record {
    wf = record {
      coherent = written-Coherent (table_device d g) fat_buf_num c'.bufs c'.disk k new r.coherent;
      head_in_range = r.head_in_range;
    };
    here = (
      new,
      subst (λ a. Shown d g c'' a new) r.holds shown_new,
      long,
      ap (λ x. low_bits x 28) stored.0 ∙ bits.1,
    );
    others = λ e v j n (x, s, l, q). elim (Bool-cases (fat_sector g clus == fat_sector g e)) [
      | inl z ↦
          let t : fat_sector g clus ≡ fat_sector g e = (==_iff _ _).0 z in
          (
            new,
            subst (λ a. Shown d g c'' a new) (r.holds ∙ t) shown_new,
            long,
            moved e v x j n t (subst (λ a. Shown d g c a x) (sym t) s) ∙ q,
          )
      | inr z ↦ (
        x,
        written-Shows (table_device d g) fat_buf_num c'.bufs c'.disk k new (fat_sector g e) x
            (λ t. cc (sym z ∙ (==_iff _ _).1 (sym (t ∙ r.holds))))
            (r.keeps (fat_sector g e) x j.1 j.2 s),
        l,
        q,
      )
    ];
  }
    where
      old : List ℕ
      old = (c'.bufs k).block

      new : List ℕ
      new = set_u32 old (fat_offset g clus) (new_entry (get_u32 old (fat_offset g clus)) value)

      c'' : FatCache d g
      c'' = record c' { bufs = update c'.bufs k (record (c'.bufs k) { state = 3; block = new }) }

      shown_new : Shown d g c'' (c'.bufs k).cur new
      shown_new = written-Shows_here (table_device d g) fat_buf_num c'.bufs c'.disk k new r.in_range

      same : old ≡ h.0
      same = r.shown h.0 h.1

      old_long : length old ≡ 512
      old_long = ap length same ∙ h.2

      fits : fat_offset g clus + 3 < length old
      fits = omega (arith, old_long, fat_offset-fits g clus)

      bits :
          (new_entry (get_u32 old (fat_offset g clus)) value < 2 ^ 32)
          × (new_entry (get_u32 old (fat_offset g clus)) value % 2 ^ 28 ≡ value % 2 ^ 28)
      bits =
          entry_bits (get_u32 old (fat_offset g clus)) value (get_u32_bound old (fat_offset g clus))

      stored :
          (get_u32 new (fat_offset g clus) ≡ new_entry (get_u32 old (fat_offset g clus)) value)
          × ((j : ℕ)
              → (j < fat_offset g clus) ⊎ (fat_offset g clus + 3 < j)
              → byte_at new j ≡ byte_at old j)
          × (length new ≡ length old)
      stored = get_u32-set_u32 old (fat_offset g clus) _ fits bits.0

      long : length new ≡ 512
      long = stored.2 ∙ old_long

      moved :
          (e v : ℕ) (x : List ℕ)
          → InFat d g e
          → e ≢ clus
          → fat_sector g clus ≡ fat_sector g e
          → Shown d g c (fat_sector g clus) x
          → low_bits (get_u32 new (fat_offset g e)) 28 ≡ low_bits (get_u32 x (fat_offset g e)) 28
      moved e v x j n t s =
          ap (λ y. low_bits y 28)
            (get_u32_cong new x (fat_offset g e) (λ b l.
              stored.1 (fat_offset g e + b) (other_word g clus e i.0 j.0 (λ z. n (sym z)) t b l)
              ∙ ap (λ y. byte_at y (fat_offset g e + b)) (r.shown x s)))

  -- Setting an entry that succeeds gives it the low 28 bits of the value and leaves all others.
  pub fs_modify_fat-Modifies :
      (c : FatCache d g) (clus value w : ℕ)
      → FatWf d g c
      → InFat d g clus
      → Entry d g c clus w
      → (fs_modify_fat d g c clus value).0 ≡ true
      → Modifies c clus value (fs_modify_fat d g c clus value).1
  unfolding fs_modify_fat
  fs_modify_fat-Modifies c clus value w wf i h =
      go (read_fat_sector d g c (fat_sector g clus))
        (λ k ok. read_fat_sector-Reads d g c clus k wf i ok)
    where
      go :
          (r : Option ℕ × FatCache d g)
          → ((k : ℕ)
              → r.0 ≡ some k
              → Reads (table_device d g) fat_buf_num c (fat_sector g clus) k r.1)
          → (set_entry d g (fat_offset g clus) value r).0 ≡ true
          → Modifies c clus value (set_entry d g (fat_offset g clus) value r).1
      go (none, c') f ok = cc
      go (some k, c') f ok = set-Modifies c clus value w wf i h c' k (f k refl)

  -- For a coherent cache and two clusters, the same or not, whose entries are in the first table: when
  -- setting the entry of the first and then looking up that of the second succeed, the look-up
  -- returns the low 28 bits of what was set if the clusters are the same, and else the entry that
  -- the second had before. The cache is coherent afterwards.
  pub fs_modify_fat-get_fat_entry_value :
      (c : FatCache d g) (clus value w e v u : ℕ)
      → FatWf d g c
      → InFat d g clus
      → InFat d g e
      → Entry d g c clus w
      → Entry d g c e v
      → (fs_modify_fat d g c clus value).0 ≡ true
      → (get_fat_entry_value d g (fs_modify_fat d g c clus value).1 e).0 ≡ some u
      → (u ≡ (if clus == e then low_bits value 28 else v))
        × FatWf d g (get_fat_entry_value d g (fs_modify_fat d g c clus value).1 e).1
  fs_modify_fat-get_fat_entry_value c clus value w e v u wf i j h q ok =
      go (fs_modify_fat d g c clus value).1 (fs_modify_fat-Modifies c clus value w wf i h ok)
    where
      go :
          (c' : FatCache d g)
          → Modifies c clus value c'
          → (get_fat_entry_value d g c' e).0 ≡ some u
          → (u ≡ (if clus == e then low_bits value 28 else v))
            × FatWf d g (get_fat_entry_value d g c' e).1
      go c' m found = elim (Bool-cases (clus == e)) [
        | inl z ↦
            let p =
              get_fat_entry_value-Entry d g c' e u (low_bits value 28) m.wf j
                (subst (λ k. Entry d g c' k (low_bits value 28)) ((==_iff clus e).0 z) m.here)
                found in
            (rw z p.0, p.1.wf)
        | inr z ↦
            let p =
              get_fat_entry_value-Entry d g c' e u v m.wf j
                (m.others e v j (λ t. cc (sym z ∙ (==_iff clus e).1 (sym t))) q) found in
            (rw z p.0, p.1.wf)
      ]
