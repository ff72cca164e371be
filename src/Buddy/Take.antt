-- ===== src/Buddy/Take.antt =====
-- `__alloc_pages` takes a free block off its list.
use os_final_program.Base.{
  ℕ, ◌*◌, ◌≤◌, ◌<◌, ◌≡◌, refl, sym, ap, subst, ◌∙◌, ◌≢◌, inl, inr, Bool, true, false, not, ◌&&◌,
  ◌||◌, arith, ◌==◌, if◌then◌else◌, ==_iff, ==_refl, ==_ne, Bool-cases, contains, sub32,
}
use os_final_program.Pc.Queues.{unlink}
use os_final_program.Pc.QueueLaws.{contains-unlink}
use os_final_program.Buddy.{Buddy, put_at, buddy_alloced}
use os_final_program.Buddy.Halves.{up, down, base}
use os_final_program.Buddy.Tiling.{Repaint, repaint-Tiling, set_level, set_free, within_block}
use os_final_program.Buddy.Rep.{Rep, Pending, never}

-- The state behind the search, with the block `h` for an allocation of level `k`.
abbrev pub taken : Buddy → ℕ → ℕ → ℕ → Buddy
taken b h c k = record b {
  free_head = λ i. unlink h (b.free_head i);
  bplevel = put_at b.bplevel h k;
  flag = put_at b.flag h buddy_alloced;
  nr_free = put_at b.nr_free c (sub32 (b.nr_free c) 1);
}

module _ (b : Buddy) (lv : ℕ → ℕ) (fr : ℕ → Bool) (n c k h : ℕ)
    (w : Rep b lv fr (n * 16) (n * 16) (n * 16)) (level : lv h ≡ c) (free : fr h ≡ true)
    (first : h ≡ base c h) where
  small : c ≤ 4
  small = subst (λ l. l ≤ 4) level (w.tiling.small h)

  level_of : (p : ℕ) → up c p ≡ up c h → lv p ≡ c
  level_of p e = w.tiling.same h p (rw level e) ∙ level

  pub free_in_block : (p : ℕ) → up c p ≡ up c h → fr p ≡ true
  free_in_block p e = w.tiling.fr_same h p (rw level e) ∙ free

  take-Repaint : Repaint lv (n * 16) c h c (λ p. false)
  take-Repaint = record {
    finer = λ p e. omega (arith, level_of p e);
    level_le = omega arith;
    level_small = small;
    agrees = λ p q e g. refl;
    below = λ p e g. absurd (cc);
  }

  h_in : within_block c h h ≡ true
  h_in = ==_refl (up c h)

  h_ne : (t : ℕ) → within_block c h t ≡ false → h ≢ t
  h_ne t o e = cc (sym h_in ∙ ap (within_block c h) e ∙ o)

  only_first : (t : ℕ) → within_block c h t ≡ true → t ≡ base c t → h ≡ t
  only_first t u e = first ∙ ap (down c) (sym ((==_iff _ _).0 u)) ∙ sym e

  taken_lv : ℕ → ℕ
  taken_lv = set_level c h c lv

  taken_fr : ℕ → Bool
  taken_fr = set_free c h (λ p. false) fr

  taken_lists :
      (i t : ℕ)
      → contains (unlink h (b.free_head i)) t
        ≡ (taken_fr t && ((taken_lv t == i) && (t == base i t)))
  unfolding taken_lv taken_fr
  taken_lists i t =
      contains-unlink h t (b.free_head i)
      ∙ ap (λ q. not (h == t) && q) (w.lists i t)
      ∙ elim (Bool-cases (within_block c h t)) [
        | inr o ↦ rw (o, ==_ne h t (h_ne t o))
        | inl u ↦ rw u (gone u (level_of t ((==_iff _ _).0 u)))
      ]
    where
      gone :
          within_block c h t ≡ true
          → lv t ≡ c
          → (not (h == t) && (fr t && ((lv t == i) && (t == base i t)))) ≡ false
      gone u e = elim (Bool-cases ((lv t == i) && (t == base i t))) [
        | inr z ↦ ground (arith, z)
        | inl z ↦
            let li : lv t ≡ i = (==_iff _ _).0 (ground (arith, z)) in
            let tb : t ≡ base i t = (==_iff _ _).0 (ground (arith, z)) in
            let s : h ≡ t = only_first t u (tb ∙ ap (λ l. base l t) (sym li ∙ e)) in
            rw ((==_iff _ _).1 s)
      ]

  taken_marks :
      (t : ℕ)
      → t < n * 16
      → t ≡ base (taken_lv t) t
      → t ≢ h
      → ((taken b h c k).bplevel t ≡ taken_lv t) × (((taken b h c k).flag t == 0) ≡ taken_fr t)
  unfolding taken_lv taken_fr
  taken_marks t i e x = elim (Bool-cases (within_block c h t)) [
    | inl u ↦
        absurd
          (x (sym (only_first t u (subst (λ (v : Bool). t ≡ base (if v then c else lv t) t) u e))))
    | inr o ↦
        let q : t ≡ base (lv t) t = subst (λ (v : Bool). t ≡ base (if v then c else lv t) t) o e in
        let s : t ≢ n * 16 = never n t i in
        rw (o, ==_ne h t (h_ne t o)) (w.levels t i q s s, w.flags t i q s s)
  ]

  pub taken-Pending :
      Pending (taken b h c k) (set_level c h c lv) (set_free c h (λ p. false) fr) n c h (n * 16)
  unfolding taken_lv taken_fr
  taken-Pending = record {
    rep = record {
      tiling = repaint-Tiling lv fr (n * 16) c h c (λ p. false) w.tiling take-Repaint;
      lists = taken_lists;
      levels = λ t i e x y. (taken_marks t i e x).0;
      flags = λ t i e x y. (taken_marks t i e x).1;
    };
    level = rw h_in refl;
    busy = rw h_in refl;
    first = first;
    inside = w.tiling.inside h free;
  }

  pub taken_union : (p : ℕ) → (within_block c h p || set_free c h (λ q. false) fr p) ≡ fr p
  taken_union p = elim (Bool-cases (within_block c h p)) [
    | inl u ↦ rw u (sym (free_in_block p ((==_iff _ _).0 u)))
    | inr o ↦ rw o
  ]

  pub taken_levels : (p : ℕ) → fr p ≡ false → set_level c h c lv p ≡ lv p
  taken_levels p f = elim (Bool-cases (within_block c h p)) [
    | inl u ↦ cc (sym (free_in_block p ((==_iff _ _).0 u)) ∙ f)
    | inr o ↦ rw o
  ]
