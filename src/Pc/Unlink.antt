-- ===== src/Pc/Unlink.antt =====
-- What `unlink` leaves of a list.
use os_final_program.Base.{
  ℕ, sym, subst, ◌≢◌, inl, inr, List, [], ◌∷◌, ◌==◌, ==_iff, ==_differ, Bool-cases,
}
use os_final_program.Pc.Queues.{unlink}

-- The second list is the first without the element `t`, with all others in their order.
pub data Without (t : ℕ) : List ℕ → List ℕ → Type 0 where
  nothing : Without t [] []
  left_out : {xs ys : List ℕ} → Without t xs ys → Without t (t ∷ xs) ys
  kept : {x : ℕ} {xs ys : List ℕ} → x ≢ t → Without t xs ys → Without t (x ∷ xs) (x ∷ ys)

pub unlink-Without : (t : ℕ) (xs : List ℕ) → Without t xs (unlink t xs)
unfolding unlink
unlink-Without t [] = nothing
unlink-Without t (x ∷ xs) = elim (Bool-cases (x == t)) [
  | inl e ↦ rw e (
      subst (λ k. Without t (k ∷ xs) (unlink t xs)) (sym ((==_iff x t).0 e))
        (left_out (unlink-Without t xs)))
  | inr n ↦ rw n (kept (==_differ n) (unlink-Without t xs))
]
