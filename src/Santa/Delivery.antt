-- ===== src/Santa/Delivery.antt =====
-- When Santa of cw10/main.c delivers.
use sysops.Common.{ℕ, ◌≡◌, refl, ◌∙◌, ap, List, [], ◌∷◌, replicate, length, total, arith}
use sysops.Santa.{reindeer_count, Reindeer, waiting, delivering, Workshop, Reaches, start}
use mathlib.Core.Path.{subst}
use sysops.Santa.Knowledge.{waits, waits_le, santa_holds, Knows, Inv}
use sysops.Santa.Invariant.{Reaches-Inv}

pub all_waiting :
    (rs : List Reindeer) → total waits rs ≡ length rs → rs ≡ replicate (length rs) waiting
unfolding total
all_waiting [] e = refl
all_waiting (waiting ∷ rs) e = ap (λ r. waiting ∷ r) (all_waiting rs (omega arith))
all_waiting (r ∷ rs) e = absurd (omega (arith, waits_le rs))

-- In any order of steps from the start of the program: while Santa delivers the toys, all nine
-- reindeer wait for the condition that lets them go, and Santa alone has the mutex.
pub delivering-waiting :
    (w : Workshop) (i : ℕ)
    → Reaches start w
    → w.shared.santa ≡ delivering i
    → (w.reindeer ≡ replicate reindeer_count waiting) × (w.shared.mutex ≡ 0)
delivering-waiting w i r e = (
  all_waiting w.reindeer (subst (λ p. Knows p w.shared.ready_count w.reindeer) e v.know)
      ∙ ap (λ n. replicate n waiting) v.size,
  omega (arith, v.lock, ap santa_holds e),
)
  where
    v : Inv w.shared w.reindeer
    v = Reaches-Inv w r
