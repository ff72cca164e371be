-- ===== src/Bootmm/Release.antt =====
-- `bootmm_free_pages` and the page map.
use os_final_program.Base.{
  ℕ, ◌+◌, ◌/◌, ◌≤◌, ◌<◌, ◌≡◌, ◌≢◌, ◌⊎◌, ◌&&◌, Option, none, some, ltb, leb, if◌then◌else◌, length,
  get_or, u32, shl, sub32,
}
use os_final_program.Bootmm.Info.{no_info, split_mminfo, refused}
use os_final_program.Bootmm.{Bootmm, page_free}

-- Why a call with an aligned start and size changes nothing: there is no whole page, or no recorded region
-- holds the pages, or the region has pages on both sides and is not split.
pub data NotReleased (b : Bootmm) (start size : ℕ) : Type 0 where
  no_page : size / 4096 ≡ 0 → NotReleased b start size
  not_recorded :
      ((i : ℕ)
        → i < length b.info
        → (get_or b.info i no_info).start ≤ start
        → (get_or b.info i no_info).end < sub32 (u32 (start + size)) 1)
      → NotReleased b start size
  not_split :
      (i : ℕ)
      → (get_or b.info i no_info).start ≢ start
      → (get_or b.info i no_info).end ≢ sub32 (u32 (start + size)) 1
      → split_mminfo b.info i start ≡ refused
      → NotReleased b start size

-- In the map of `c`, the `n` pages from `f` on are free, and the others are as in that of `b`.
abbrev pub Cleared : Bootmm → Bootmm → ℕ → ℕ → Type 0
Cleared b c f n = (q : ℕ) → c.s_map q ≡ (if leb f q && ltb q (f + n) then page_free else b.s_map q)

After : Bootmm → ℕ → ℕ → Option Bootmm → Type 0
After b start size none = Unit {0}
After b start size (some c) =
    ((c ≡ b) × NotReleased b start size) ⊎ Cleared b c (shl start 12) (size / 4096)
