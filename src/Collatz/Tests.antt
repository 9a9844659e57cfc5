-- ===== src/Collatz/Tests.antt =====
-- cw02 at concrete inputs, as its main prints them.
use sysops.Common.{
  ℤ, true, false, ◌↔◌, ◌≤◌, arith, ◌≡◌, refl, none, some, [], ◌∷◌, pos, negsuc, minus_one, loop,
}
use sysops.Collatz.Steps.{Converges, test_collatz_convergence-Converges}
use sysops.Collatz.Loading.{load_and_run, opens, finds_test, finds_conjecture, closes}
use sysops.Collatz.Bounds.{IsCount, test_collatz_convergence-IsCount}
use sysops.Collatz.{main, collatz_conjecture, converge, test_collatz_convergence}

main_prints : main ≡ (
  (1, some (pos 0))
      ∷ (2, some (pos 1))
      ∷ (3, some (pos 7))
      ∷ (4, some (pos 2))
      ∷ (5, some (pos 5))
      ∷ (6, some (pos 8))
      ∷ (7, some (pos 16))
      ∷ (8, some (pos 3))
      ∷ (9, some (pos 19))
      ∷ [],
  some (pos 16),
)
unfolding main test_collatz_convergence converge loop collatz_conjecture
main_prints = refl

too_few : test_collatz_convergence (pos 9) (pos 18) ≡ some minus_one
unfolding test_collatz_convergence converge collatz_conjecture
too_few = refl

-- A negative bound reads as zero steps.
negative_bound : test_collatz_convergence (pos 9) (negsuc 4) ≡ some (pos 0)
unfolding test_collatz_convergence converge collatz_conjecture
negative_bound = refl

overflows : test_collatz_convergence (pos 715827883) (pos 1) ≡ none
unfolding test_collatz_convergence converge collatz_conjecture
overflows = refl

from_a_negative : test_collatz_convergence (negsuc 0) (pos 3) ≡ some minus_one
unfolding test_collatz_convergence converge collatz_conjecture
from_a_negative = refl

test_collatz_convergence-Converges_example :
    (test_collatz_convergence (pos 6) (pos 8) ≡ some (pos 8)) ↔ (Converges 6 8 × (8 ≤ 8))
test_collatz_convergence-Converges_example = test_collatz_convergence-Converges 6 8 8 (omega arith)

test_collatz_convergence-IsCount_example :
    (r : ℤ) × (test_collatz_convergence (negsuc 6) (pos 10) ≡ some r) × IsCount 10 r
test_collatz_convergence-IsCount_example =
    test_collatz_convergence-IsCount (negsuc 6) 10 (omega arith)

-- The library has one function of the two.
not_found :
    load_and_run (record { is_open = true; has_test = true; has_conjecture = false }) main
    ≡ (opens ∷ finds_test ∷ finds_conjecture ∷ closes ∷ [], none)
unfolding load_and_run
not_found = refl
