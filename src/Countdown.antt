-- ===== src/Countdown.antt =====
-- cw01/countdown.c: a countdown from 10.
mod Tests
use sysops.Common.{ℕ, zero, suc, Option, none, some, List, [], ◌∷◌}

-- A line that is printed.
pub data Line : Type 0 where
  arg : List ℕ → Line
  number : ℕ → Line

-- The loop, from `i` down to 0.
unfoldable pub count_down : ℕ → List Line
count_down zero = number 0 ∷ []
count_down (suc i) = number (suc i) ∷ count_down i

-- `main` with its first argument, if it has one.
unfoldable pub main : Option (List ℕ) → List Line
unfolding count_down
main none = count_down 10
main (some word) = arg word ∷ count_down 10
