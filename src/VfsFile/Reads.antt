-- ===== src/VfsFile/Reads.antt =====
-- A read returns the bytes of the file.
use os_final_program.Base.{
  ℕ, zero, suc, ◌+◌, ◌-◌, ◌*◌, ◌/◌, ◌^◌, ◌≤◌, ◌<◌, ◌≡◌, refl, ap, ◌∙◌, Option, some, arith, leb,
  if◌then◌else◌, length, get_or,
}
use native.Mathlib.Nat.{div-add-mod'}
use os_final_program.VfsFile.{generic_file_read, read_limit, bytes}
use os_final_program.VfsFile.Limit.{up_to_limit}

length-bytes : (f : ℕ → ℕ) (a n : ℕ) → length (bytes f a n) ≡ n
unfolding bytes
length-bytes f a zero = refl
length-bytes f a (suc n) = ap suc (length-bytes f (a + 1) n)

get_or-bytes : (f : ℕ → ℕ) (a n k : ℕ) → k < n → get_or (bytes f a n) k 0 ≡ f (a + k)
unfolding bytes
get_or-bytes f a zero k l = absurd (omega arith)
get_or-bytes f a (suc n) zero l = ap f (omega arith)
get_or-bytes f a (suc n) (suc k) l =
    get_or-bytes f (a + 1) n k (omega (arith, l)) ∙ ap f (omega arith)

quotient_times : (b p x : ℕ) → 0 < b → p ≤ x / b → p * b ≤ x
quotient_times b p x h l =
    let k : ℕ = x / b - p in
    let s : x / b * b ≡ p * b + k * b = ap (λ q. q * b) (omega (arith, l)) ∙ spread p k in
    omega (arith, s, div-add-mod' x b)
  where
    spread : (p n : ℕ) → (p + n) * b ≡ p * b + n * b
    spread p n = grind arith

-- The file has `i_size` bytes, `file` being the one at each position; page `p` holds those from
-- `p * blksize` on, and every page that starts neither behind `pos + count` nor behind the end of the
-- file can be had; `pos` is not behind the end of the file, and `pos + count` is a 32-bit word. Then a
-- read gives `count` bytes, or those up to the end of the file if there are fewer, and the byte `k` of
-- them is the one at `pos + k` of the file.
pub generic_file_read-bytes :
    (blksize i_size pos count : ℕ) (page : ℕ → Option (ℕ → ℕ)) (file : ℕ → ℕ) (contents : ℕ → ℕ → ℕ)
    → 0 < blksize
    → blksize < 2 ^ 32
    → pos ≤ i_size
    → pos + count < 2 ^ 32
    → ((p o : ℕ) → o < blksize → contents p o ≡ file (p * blksize + o))
    → ((p : ℕ) → p * blksize ≤ pos + count → p * blksize ≤ i_size → page p ≡ some (contents p))
    → (length (generic_file_read blksize i_size page pos count)
        ≡ (if leb count (i_size - pos) then count else i_size - pos))
      × ((k : ℕ)
          → k < count
          → pos + k < i_size
          → get_or (generic_file_read blksize i_size page pos count) k 0 ≡ file (pos + k))
generic_file_read-bytes blksize i_size pos count page file contents h w inside word holds there = (
  ap length read ∙ length-bytes file pos _ ∙ (unfold read_limit in ground arith),
  λ k l m. ap (λ xs. get_or xs k 0) read ∙ get_or-bytes file pos _ k (omega (arith, within k l m)),
)
  where
    limit : ℕ
    limit = read_limit i_size pos count

    low : (limit ≤ pos + count) × (limit ≤ i_size) × (pos ≤ limit)
    low = unfold read_limit in ground arith

    within : (k : ℕ) → k < count → pos + k < i_size → pos + k < limit
    within k l m = unfold read_limit in ground arith

    at_pages : (p : ℕ) → p ≤ limit / blksize → page p ≡ some (contents p)
    at_pages p l =
        let q : p * blksize ≤ limit = quotient_times blksize p limit h l in
        there p (omega (arith, q, low)) (omega (arith, q, low))

    read : generic_file_read blksize i_size page pos count ≡ bytes file pos (limit - pos)
    read = up_to_limit blksize i_size pos count page file contents h w low.2 holds at_pages
