-- ===== src/Santa/Tests.antt =====
-- A run of cw10 up to the first delivery, and the theorem there.
use sysops.Common.{ℕ, ◌+◌, ◌≡◌, ◌==◌, refl, Bool-cases, inl, inr, ◌∷◌, ◌++◌, replicate, some}
use sysops.Santa.{
  reindeer_count, Reindeer, starting, leaving, flying, arrived, counted, signalled, waiting, Santa,
  locking, checking, delivering, Shared, Workshop, reindeer_step, santa_step, Step, santa_moves,
  reindeer_moves, Reaches, here, then_step, start,
}
use sysops.Santa.Delivery.{delivering-waiting}

abbrev at : ℕ → ℕ → Santa → Shared
at c m p = record { ready_count = c; mutex = m; santa = p }

-- Santa has not come yet; `k` reindeer wait and the next one stands at `r`.
abbrev morning : ℕ → ℕ → ℕ → Reindeer → ℕ → Workshop
morning c m k r rest = record {
  shared = at c m (locking 0);
  reindeer = replicate k waiting ++ (r ∷ replicate rest starting);
}

signals :
    (c : ℕ) → reindeer_step counted (at c 0 (locking 0)) ≡ some (signalled, at c 0 (locking 0))
unfolding reindeer_step
signals c = elim (Bool-cases (c == reindeer_count)) [ inl e ↦ rw e refl | inr e ↦ rw e refl ]

-- The next reindeer goes on holiday, comes back and waits.
comes :
    (c k rest : ℕ)
    → Reaches start (morning c 1 k starting rest)
    → Reaches start (morning (c + 1) 1 k waiting rest)
unfolding reindeer_step
comes c k rest before =
    then_step _ _
      (then_step _ _
        (then_step _ _
          (then_step _ _
            (then_step _ _
              (then_step _ _ before
                (moves starting leaving (at c 1 (locking 0)) (at c 0 (locking 0)) refl))
              (moves leaving flying (at c 0 (locking 0)) (at c 1 (locking 0)) refl))
            (moves flying arrived (at c 1 (locking 0)) (at c 0 (locking 0)) refl))
          (moves arrived counted (at c 0 (locking 0)) (at (c + 1) 0 (locking 0)) refl))
        (moves counted signalled (at (c + 1) 0 (locking 0)) (at (c + 1) 0 (locking 0))
          (signals (c + 1))))
      (moves signalled waiting (at (c + 1) 0 (locking 0)) (at (c + 1) 1 (locking 0)) refl)
  where
    moves :
        (r m : Reindeer) (s t : Shared)
        → reindeer_step r s ≡ some (m, t)
        → Step
            (record { shared = s; reindeer = replicate k waiting ++ (r ∷ replicate rest starting) })
            (record { shared = t; reindeer = replicate k waiting ++ (m ∷ replicate rest starting) })
    moves r m s t e = reindeer_moves (replicate k waiting) (replicate rest starting) r m t refl e

all_come : Reaches start (morning 9 1 8 waiting 0)
all_come = comes 8 8 0 (
    comes 7 7 1 (
      comes 6 6 2
        (comes 5 5 3 (comes 4 4 4 (comes 3 3 5 (comes 2 2 6 (comes 1 1 7 (comes 0 0 8 here))))))))

abbrev delivery : Workshop
delivery = record { shared = at 9 0 (delivering 0); reindeer = replicate 9 waiting }

first_delivery : Reaches start delivery
unfolding santa_step
first_delivery =
    then_step (record { shared = at 9 0 (checking 0); reindeer = replicate 9 waiting }) delivery
      (then_step (morning 9 1 8 waiting 0)
        (record { shared = at 9 0 (checking 0); reindeer = replicate 9 waiting }) all_come
        (santa_moves _ refl))
      (santa_moves _ refl)

delivering-waiting_example :
    (delivery.reindeer ≡ replicate reindeer_count waiting) × (delivery.shared.mutex ≡ 0)
delivering-waiting_example = delivering-waiting delivery 0 first_delivery refl
