-- ===== src/FsCache/Clear.antt =====
-- `fs_clr_512` and `fs_clr_4k`: a new block enters the cache as zeros, without a read.
use os_final_program.Base.{
  ℕ, ◌<◌, ◌≡◌, refl, sym, ap, subst, ◌∙◌, ◌≢◌, inl, Bool, true, false, ==_refl,
}
use os_final_program.FsCache.Disk.{Device}
use os_final_program.FsCache.{
  Buf, Cache, no_block, dirty_bit, clear, fs_write, fs_clr, fs_clr_victim,
}
use os_final_program.FsCache.Victim.{Victim, fs_victim-Victim}
use os_final_program.FsCache.Coherent.{
  Coherent, Shows, Agree-Coherent, Agree-Shows, Flushed, fs_write-Flushed, place-Shows,
}

module _ (d : Device) where
  open d use {St, B, Grid, zeros}

  -- What a clear of the block at `a` makes of the cache `c`.
  pub record Clears (size : ℕ) (c : Cache d) (a : ℕ) (c' : Cache d) : Type 0 where
    pub shown : Shows d size c'.bufs c'.disk a zeros
    pub not_dirty : (i : ℕ) × (i < size) × ((c'.bufs i).cur ≡ a) × (dirty_bit (c'.bufs i).state ≡ 0)
    pub keeps :
        (a' : ℕ) (x : B)
        → Grid a'
        → a' ≢ no_block
        → a' ≢ a
        → Shows d size c.bufs c.disk a' x
        → Shows d size c'.bufs c'.disk a' x

  clear-Clears :
      {size : ℕ} (c : Cache d) (a : ℕ)
      → Coherent d size c.bufs c.disk
      → Grid a
      → a ≢ no_block
      → ((i : ℕ) → i < size → (c.bufs i).cur ≢ a)
      → (r : ℕ × (ℕ → Buf B) × ℕ) → Victim size c.bufs r
      → (w : Bool × Buf B × St) → fs_write d (r.1 r.0) c.disk ≡ w
      → (clear d a r.0 r.1 r.2 w).0 ≡ true
      → Clears size c a (clear d a r.0 r.1 r.2 w).1
  unfolding clear
  clear-Clears c a coh ga na absent (i, g, head) vic (false, v, s') e ok = cc
  clear-Clears {size} c a coh ga na absent (i, g, head) vic (true, v, s') e ok =
      let coh' : Coherent d size g c.disk = Agree-Coherent d vic.agree coh in
      let fl : Flushed d g c.disk i (fs_write d (g i) c.disk).2 =
        fs_write-Flushed d i vic.in_range coh' (ap (λ t. t.0) e) in
      let fl' : Flushed d g c.disk i s' =
        subst (λ t. Flushed d g c.disk i t) (ap (λ t. t.2) e) fl in
      let new : Buf B = record { block = zeros; cur = a; state = 0 } in
      record {
        shown = unfold Shows in inl (i, vic.in_range, rw (==_refl i), rw (==_refl i));
        not_dirty = (i, vic.in_range, rw (==_refl i), rw (==_refl i));
        keeps = λ a' x ga' u n sh.
            place-Shows d i new vic.in_range coh' fl' ga na
              (λ j l z. absent j l (sym (vic.agree.same_cur j) ∙ z)) a' x ga' u n
              (Agree-Shows d size c.disk a' x vic.agree sh);
      }

  -- A clear that succeeds, of a block of the grid that a coherent cache does not hold, makes the cache
  -- show zeros for the block and leaves what it shows of every other block; the buffer is not
  -- marked dirty, so the zeros reach the disk only if the caller marks it.
  pub fs_clr-Clears :
      (size a : ℕ) (c : Cache d)
      → Coherent d size c.bufs c.disk
      → c.clock_head < size
      → Grid a
      → a ≢ no_block
      → ((i : ℕ) → i < size → (c.bufs i).cur ≢ a)
      → (fs_clr d c size a).0 ≡ true
      → Clears size c a (fs_clr d c size a).1
  unfolding fs_clr fs_clr_victim
  fs_clr-Clears size a c coh hd ga na absent ok =
      clear-Clears c a coh ga na absent _ (fs_victim-Victim c.bufs c.clock_head size hd) _ refl ok
