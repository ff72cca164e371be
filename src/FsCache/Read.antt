-- ===== src/FsCache/Read.antt =====
-- `fs_read_512` and `fs_read_4k`: the cache behaves as the disk.
use os_final_program.Base.{
  ℕ, zero, suc, ◌+◌, ◌≤◌, ◌<◌, ◌≡◌, refl, sym, ap, subst, ◌∙◌, ◌≢◌, ◌⊎◌, inl, inr, Bool, true,
  false, some, arith, ◌==◌, ==_iff, ==_refl, ==_ne, Bool-cases, u32,
}
use native.Mathlib.Decide.{ℕ_discrete}
use os_final_program.FsCache.Disk.{Device}
use os_final_program.FsCache.{
  Buf, Cache, no_block, set_ref, update, find_from, fill, fs_read, fs_read_miss, replace,
  fs_read_at, find_block, fs_write,
}
use os_final_program.FsCache.Victim.{Agree, Victim, fs_victim-Victim}
use os_final_program.FsCache.Coherent.{
  Coherent, Shows, Agree-Coherent, Agree-Shows, Flushed, fs_write-Flushed, place-Shows,
  place-Coherent,
}

module _ {B : Type 0} where
  find_from_lem :
      (f : ℕ → Buf B) (a i n : ℕ)
      → ((find_from f a i n < i + n) × ((f (find_from f a i n)).cur ≡ a))
        ⊎ ((find_from f a i n ≡ i + n) × ((k : ℕ) → i ≤ k → k < i + n → (f k).cur ≢ a))
  unfolding find_from
  find_from_lem f a i zero = inr (omega arith, λ k l h. absurd (omega arith))
  find_from_lem f a i (suc n) = elim (Bool-cases ((f i).cur == a)) [
    | inl t ↦ rw t (inl (omega arith, (==_iff (f i).cur a).0 t))
    | inr t ↦ rw t (elim (find_from_lem f a (i + 1) n) [
      | inl (l, e) ↦ inl (omega arith, e)
      | inr (e, out) ↦ inr (
        omega arith,
        λ k l h. elim (ℕ_discrete i k) [
          | yes q ↦ λ z. cc (sym t ∙ (==_iff (f i).cur a).1 (ap (λ j. (f j).cur) q ∙ z))
          | no q ↦ out k (omega arith) (omega arith)
        ],
      )
    ])
  ]

  Agree-set_ref :
      (f : ℕ → Buf B) (h : ℕ) → Agree f (update f h (record (f h) { state = set_ref (f h).state }))
  Agree-set_ref f h = record {
    same_block =
        λ i. elim (Bool-cases (h == i)) [ inl e ↦ rw (e, (==_iff h i).0 e) | inr n ↦ rw n ];
    same_cur = λ i. elim (Bool-cases (h == i)) [ inl e ↦ rw (e, (==_iff h i).0 e) | inr n ↦ rw n ];
    same_dirty = λ i. elim (Bool-cases (h == i)) [
      | inl e ↦ rw (e, (==_iff h i).0 e) (omega arith)
      | inr n ↦ rw n
    ];
  }

module _ (d : Device) where
  open d use {St, B, Grid, read, read_same}

  -- What a read of the block at `a` into buffer `k` makes of the cache `c`.
  pub record Reads (size : ℕ) (c : Cache d) (a k : ℕ) (c' : Cache d) : Type 0 where
    pub in_range : k < size
    pub holds : (c'.bufs k).cur ≡ a
    pub shown : (x : B) → Shows d size c.bufs c.disk a x → (c'.bufs k).block ≡ x
    pub keeps :
        (a' : ℕ) (x : B)
        → Grid a'
        → a' ≢ no_block
        → Shows d size c.bufs c.disk a' x
        → Shows d size c'.bufs c'.disk a' x
    pub coherent : Coherent d size c'.bufs c'.disk
    pub head_in_range : c'.clock_head < size

  module _ {size : ℕ} (c : Cache d) (a : ℕ) (coh : Coherent d size c.bufs c.disk)
      (hd : c.clock_head < size) (ga : Grid a) (na : a ≢ no_block) where
    hit_Reads :
        (i : ℕ)
        → i < size
        → (c.bufs i).cur ≡ a
        → Reads size c a i (record c {
          bufs = update c.bufs i (record (c.bufs i) { state = set_ref (c.bufs i).state });
        })
    hit_Reads i l e =
        let ag : Agree c.bufs
            (update c.bufs i (record (c.bufs i) { state = set_ref (c.bufs i).state })) =
          Agree-set_ref c.bufs i in
        record {
          in_range = l;
          holds = ag.same_cur i ∙ e;
          shown = λ x.
              unfold Shows in
              elim [
                | inl (j, lj, ej, bj) ↦
                    let same : i ≡ j = coh.distinct i j l lj (λ z. na (sym e ∙ z)) (e ∙ sym ej) in
                    ag.same_block i ∙ ap (λ k. (c.bufs k).block) same ∙ bj
                | inr (out, r) ↦ absurd (out i l e)
              ];
          keeps = λ a' x g u. Agree-Shows d size c.disk a' x ag;
          coherent = Agree-Coherent d ag coh;
          head_in_range = hd;
        }

    module _ (absent : (i : ℕ) → i < size → (c.bufs i).cur ≢ a) where
      miss_Reads :
          (g : ℕ → Buf B) (i head : ℕ) (s' : St) (v : Buf B) (b : B)
          → Victim size c.bufs (i, g, head)
          → Flushed d g c.disk i s'
          → read s' a v.block ≡ (true, b)
          → Reads size c a i (record {
            bufs = update g i (record { block = b; cur = a; state = 1 });
            clock_head = head;
            disk = s';
          })
      miss_Reads g i head s' v b vic fl e = record {
        in_range = vic.in_range;
        holds = rw (==_refl i);
        shown = λ x sh. rw (==_refl i) (found x sh);
        keeps = λ a' x ga' u sh. elim (ℕ_discrete a' a) [
          | yes q ↦ here a' x q sh
          | no n ↦
              place-Shows d i new vic.in_range coh' fl ga na absent' a' x ga' u n
                (Agree-Shows d size c.disk a' x vic.agree sh)
        ];
        coherent =
            place-Coherent d i new vic.in_range coh' fl ga na absent'
              (λ n b'. read_same s' a v.block b' (ap (λ t. t.0) e) ∙ e);
        head_in_range = vic.head_in_range;
      }
        where
          new : Buf B
          new = record { block = b; cur = a; state = 1 }

          coh' : Coherent d size g c.disk
          coh' = Agree-Coherent d vic.agree coh

          absent' : (j : ℕ) → j < size → (g j).cur ≢ a
          absent' j l z = absent j l (sym (vic.agree.same_cur j) ∙ z)

          found : (x : B) → Shows d size c.bufs c.disk a x → b ≡ x
          found x =
              unfold Shows in
              elim [
                | inl (j, l, z, w) ↦ absurd (absent j l z)
                | inr (out, r) ↦
                    ap (λ t. t.1)
                      (sym e ∙ fl.others a v.block ga (absent' i vic.in_range) ∙ r v.block)
              ]

          here :
              (a' : ℕ) (x : B)
              → a' ≡ a
              → Shows d size c.bufs c.disk a' x
              → Shows d size (update g i new) s' a' x
          here a' x q sh =
              let w : b ≡ x = found x (subst (λ t. Shows d size c.bufs c.disk t x) q sh) in
              unfold Shows in inl (i, vic.in_range, rw (==_refl i) (sym q), rw (==_refl i) w)

      fill-Reads :
          (g : ℕ → Buf B) (i head k : ℕ) (s' : St) (v : Buf B) (r : Bool × B)
          → Victim size c.bufs (i, g, head)
          → Flushed d g c.disk i s'
          → read s' a v.block ≡ r
          → (fill d a i v g head s' r).0 ≡ some k
          → Reads size c a k (fill d a i v g head s' r).1
      unfolding fill
      fill-Reads g i head k s' v (true, b) vic fl e ok =
          let same : i ≡ k = cc in
          subst (λ k. Reads size c a k (fill d a i v g head s' (true, b)).1) same
            (miss_Reads g i head s' v b vic fl e)
      fill-Reads g i head k s' v (false, b) vic fl e ok = cc

      replace-Reads :
          (g : ℕ → Buf B) (i head k : ℕ) (w : Bool × Buf B × St)
          → Victim size c.bufs (i, g, head)
          → fs_write d (g i) c.disk ≡ w
          → (replace d a i g head w).0 ≡ some k
          → Reads size c a k (replace d a i g head w).1
      unfolding replace
      replace-Reads g i head k (true, v, s') vic e ok =
          let fl : Flushed d g c.disk i (fs_write d (g i) c.disk).2 =
            fs_write-Flushed d i vic.in_range (Agree-Coherent d vic.agree coh) (ap (λ t. t.0) e) in
          fill-Reads g i head k s' v (read s' a v.block) vic
            (subst (λ t. Flushed d g c.disk i t) (ap (λ t. t.2) e) fl) refl ok
      replace-Reads g i head k (false, v, s') vic e ok = cc

      fs_read_miss-Reads :
          (r : ℕ × (ℕ → Buf B) × ℕ) (k : ℕ)
          → Victim size c.bufs r
          → (fs_read_miss d a c.disk r).0 ≡ some k
          → Reads size c a k (fs_read_miss d a c.disk r).1
      unfolding fs_read_miss
      fs_read_miss-Reads (i, g, head) k vic = replace-Reads g i head k _ vic refl

  -- The clock's head is below the number of buffers, and the address is not 0xffffffff. A read that
  -- succeeds, of any block of the grid through a coherent cache, returns the index of a
  -- buffer that holds that block with the contents which the cache or else the disk had for it;
  -- what the cache shows of every other block stays, written back where it has to be, and the
  -- cache stays coherent.
  pub fs_read-Reads :
      (base size sec k : ℕ) (c : Cache d)
      → Coherent d size c.bufs c.disk
      → c.clock_head < size
      → Grid (u32 (sec + base))
      → u32 (sec + base) ≢ no_block
      → (fs_read d base c sec size).0 ≡ some k
      → Reads size c (u32 (sec + base)) k (fs_read d base c sec size).1
  unfolding fs_read fs_read_at find_block
  fs_read-Reads base size sec k c coh hd ga na =
      go (find_from c.bufs a 0 size) (find_from_lem c.bufs a 0 size)
    where
      a : ℕ
      a = u32 (sec + base)

      go :
          (i : ℕ)
          → ((i < 0 + size) × ((c.bufs i).cur ≡ a))
            ⊎ ((i ≡ 0 + size) × ((k : ℕ) → 0 ≤ k → k < 0 + size → (c.bufs k).cur ≢ a))
          → (fs_read_at d c a size i).0 ≡ some k
          → Reads size c a k (fs_read_at d c a size i).1
      go i (inl (l, e)) = rw (==_ne i size (omega arith)) (λ ok.
          let same : i ≡ k = cc in
          subst
            (λ k. Reads size c a k (record c {
              bufs = update c.bufs i (record (c.bufs i) { state = set_ref (c.bufs i).state });
            }))
            same (hit_Reads c a coh hd ga na i (omega arith) e))
      go i (inr (e, out)) =
          let t : (i == size) ≡ true = (==_iff i size).1 (omega arith) in
          rw t (
            fs_read_miss-Reads c a coh hd ga na (λ j l. out j (omega arith) (omega arith)) _ k
              (fs_victim-Victim c.bufs c.clock_head size hd))
