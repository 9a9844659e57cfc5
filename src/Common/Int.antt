-- ===== src/Common/Int.antt =====
-- C's `int` as an integer; `negsuc n` is -(n + 1). (The library's ℤ stands on the unary numbers.)
use Prim.Native.Nat.{ℕ}
use mathlib.Core.Path.{◌≡◌}
use mathlib.Core.Logic.{◌↔◌}
use mathlib.Core.Bool.{Bool, true, false}
use native.Mathlib.Omega.{arith}
use sysops.Common.Tests.{◌==◌, if◌then◌else◌}

pub data ℤ : Type 0 where
  pos : ℕ → ℤ
  negsuc : ℕ → ℤ

abbrev pub eq_ℤ : ℤ → ℤ → Bool
eq_ℤ (pos a) (pos b) = a == b
eq_ℤ (negsuc a) (negsuc b) = a == b
eq_ℤ _ _ = false

pub eq_ℤ_iff : (a b : ℤ) → (eq_ℤ a b ≡ true) ↔ (a ≡ b)
eq_ℤ_iff (pos a) (pos b) = ground arith
eq_ℤ_iff a b = ground arith

-- What a C function returns on failure, and the descriptor that is none.
abbrev pub minus_one : ℤ
minus_one = negsuc 0

abbrev pub is_positive : ℤ → Bool
is_positive (pos n) = if n == 0 then false else true
is_positive (negsuc n) = false

-- The rounds of a loop from 0 below an integer.
abbrev pub rounds_of : ℤ → ℕ
rounds_of (pos n) = n
rounds_of (negsuc n) = 0
