-- ===== src/Collatz/Loading.antt =====
-- `main` of cw02/main.c where it loads the functions from a shared library.
use sysops.Common.{ℕ, suc, ◌≡◌, Bool, if◌then◌else◌, Option, none, some, List, [], ◌∷◌, arith}

-- A call on the library: `dlopen`, `dlsym` for one of the two functions, `dlclose`.
pub data Call : Type 0 where
  opens finds_test finds_conjecture closes : Call

-- What `dlopen` gives, and whether `dlerror` is NULL behind each `dlsym`.
pub record Library : Type 0 where
  pub is_open : Bool
  pub has_test : Bool
  pub has_conjecture : Bool

-- `main`: its calls on the library, and, if it comes to the loop, what it prints there with the
-- functions that it has found.
unfoldable pub load_and_run : {A : Type 0} → Library → A → List Call × Option A
load_and_run lib printed =
    if lib.is_open
    then (if lib.has_test
        then (if lib.has_conjecture
            then (opens ∷ finds_test ∷ finds_conjecture ∷ closes ∷ [], some printed)
            else (opens ∷ finds_test ∷ finds_conjecture ∷ closes ∷ [], none))
        else (opens ∷ finds_test ∷ closes ∷ [], none))
    else (opens ∷ [], none)

-- How often the library is closed.
abbrev closings : List Call → ℕ
closings [] = 0
closings (closes ∷ calls) = suc (closings calls)
closings (opens ∷ calls) = closings calls
closings (finds_test ∷ calls) = closings calls
closings (finds_conjecture ∷ calls) = closings calls

-- A library that is open is closed once on every path, and one that is not is not closed.
load_and_run-closings :
    {A : Type 0} (lib : Library) (printed : A)
    → closings (load_and_run lib printed).0 ≡ (if lib.is_open then 1 else 0)
unfolding load_and_run
load_and_run-closings lib printed = ground arith
