-- ===== src/Lock/Tests.antt =====
-- A lock that has been taken and released once.
use os_final_program.Base.{ℕ, ◌<◌, ◌≡◌, refl, ◌⊎◌, none, some, ◌∷◌, replicate}
use os_final_program.Lock.{Lock, init_lock, do_lock, do_unlock}
use os_final_program.Lock.Uses.{Uses, fresh, locks, unlocks, do_lock-eight_times}

abbrev taken : Lock
taken = record {
  hash_map = none ∷ none ∷ none ∷ some 3 ∷ replicate 4 none;
  number = 0 ∷ 0 ∷ 0 ∷ 1 ∷ replicate 4 0;
  choosing = replicate 8 0;
}

takes : do_lock init_lock 3 ≡ some (3, taken)
unfolding do_lock init_lock
takes = refl

once : Uses 1 (do_unlock taken 3)
once = unlocks 1 taken 3 (locks 0 init_lock taken 3 3 fresh takes)

do_lock-eight_times_example :
    ((1 < 8) × ((i : ℕ) × (l' : Lock) × (do_lock (do_unlock taken 3) 5 ≡ some (i, l'))))
    ⊎ ((◌≡◌ {A = ℕ} 1 8) × (do_lock (do_unlock taken 3) 5 ≡ none))
do_lock-eight_times_example = do_lock-eight_times 1 (do_unlock taken 3) 5 once
