-- ===== src/Collatz.antt =====
-- cw02: the Collatz steps of collatz/collatz.c, on a 32-bit int, and the loop of main.c.
pub mod Steps
pub mod Bounds
pub mod Loading
mod Tests
use sysops.Common.{
  ℕ, zero, suc, ◌+◌, ◌-◌, ◌*◌, ◌/◌, ◌%◌, ◌^◌, ◌==◌, ◌&&◌, Bool, true, false, if◌then◌else◌, leb,
  not, Option, none, some, ℤ, rounds_of, pos, negsuc, eq_ℤ, minus_one, List, [], ◌∷◌, ◌++◌, loop,
}

-- The largest absolute value of an int, that of INT_MIN.
abbrev pub int_bound : ℕ
int_bound = 2 ^ 31

abbrev pub is_one : ℤ → Bool
is_one (pos n) = n == 1
is_one (negsuc n) = false

-- `none` where an int overflows, which C leaves undefined.
unfoldable pub collatz_conjecture : ℤ → Option ℤ
collatz_conjecture (pos n) =
    if n % 2 == 0
    then some (pos (n / 2))
    else if leb (3 * n + 2) int_bound
    then some (pos (3 * n + 1))
    else none
collatz_conjecture (negsuc n) =
    if (n + 1) % 2 == 0
    then some (negsuc ((n + 1) / 2 - 1))
    else if leb (3 * (n + 1)) int_bound
    then some (negsuc (3 * n + 1))
    else none

-- The loop of `test_collatz_convergence`, with the rounds that `max_iter` leaves: `input` and
-- `iter_count` behind it.
unfoldable pub converge : ℕ → ℤ → ℕ → Option (ℤ × ℕ)
unfolding collatz_conjecture
converge zero input iter_count = some (input, iter_count)
converge (suc rounds) input iter_count = elim (is_one input) [
  | true ↦ some (input, iter_count)
  | false ↦ elim (collatz_conjecture input) [
    | none ↦ none
    | some next ↦ converge rounds next (iter_count + 1)
  ]
]

-- What follows the loop.
abbrev pub iterations : ℤ → Option (ℤ × ℕ) → Option ℤ
iterations max_iter none = none
iterations max_iter (some (input, iter_count)) =
    if not (is_one input) && eq_ℤ (pos iter_count) max_iter
    then some minus_one
    else some (pos iter_count)

unfoldable pub test_collatz_convergence : ℤ → ℤ → Option ℤ
unfolding converge
test_collatz_convergence input max_iter =
    iterations max_iter (converge (rounds_of max_iter) input 0)

-- The lines that `main` prints: a number with its steps, and the last one.
unfoldable pub main : List (ℕ × Option ℤ) × Option ℤ
unfolding test_collatz_convergence loop
main = (
  loop 9 1 (λ i out. out ++ ((i, test_collatz_convergence (pos i) (pos 19)) ∷ [])) [],
  collatz_conjecture (pos 5),
)
