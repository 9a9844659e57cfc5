-- ===== src/Collatz/Bounds.antt =====
-- How large `input` and `max_iter` of cw02 may be so that no int overflows.
use sysops.Common.{
  ℕ, zero, suc, ◌+◌, ◌-◌, ◌*◌, ◌/◌, ◌%◌, ◌^◌, ◌≡◌, ◌≤◌, ◌<◌, ◌==◌, refl, ◌∙◌, ap, true, false, leb,
  some, ℤ, pos, negsuc, eq_ℤ, arith, Bool-cases, inl, inr, minus_one, not, ◌&&◌,
}
use mathlib.Core.Path.{subst}
use native.Mathlib.Nat.{
  le_trans, le-mul_of_pos_right, mul-le-mul_right, mul_comm, mul_assoc, mul_left_comm, pow-suc,
}
use sysops.Collatz.{
  int_bound, is_one, collatz_conjecture, converge, iterations, test_collatz_convergence,
}

-- One more than the absolute value, or the absolute value of a negative number.
abbrev pub size : ℤ → ℕ
size (pos n) = n + 1
size (negsuc n) = n + 1

-- A number of steps up to `m`, or -1.
abbrev pub IsCount : ℕ → ℤ → Type 0
IsCount m (pos k) = k ≤ m
IsCount m (negsuc k) = k ≡ 0

-- A step that cannot overflow: its result is at most three times as large.
one_step :
    (x : ℤ)
    → 3 * size x ≤ int_bound
    → (y : ℤ) × (collatz_conjecture x ≡ some y) × (size y ≤ 3 * size x)
unfolding collatz_conjecture
one_step (pos n) le = elim (Bool-cases (n % 2 == 0)) [
  | inl even ↦ (pos (n / 2), rw even refl, omega arith)
  | inr odd ↦
      let fits : leb (3 * n + 2) int_bound ≡ true = ground arith in
      (pos (3 * n + 1), rw (odd, fits) refl, omega arith)
]
one_step (negsuc n) le = elim (Bool-cases ((n + 1) % 2 == 0)) [
  | inl even ↦
      let some_half : (n + 1) % 2 ≡ 0 = ground arith in
      (negsuc ((n + 1) / 2 - 1), rw even refl, omega arith)
  | inr odd ↦
      let fits : leb (3 * (n + 1)) int_bound ≡ true = ground arith in
      (negsuc (3 * n + 1), rw (odd, fits) refl, omega arith)
]

stops : (m c : ℕ) (x : ℤ) → is_one x ≡ true → converge m x c ≡ some (x, c)
unfolding converge
stops zero c x e = refl
stops (suc m) c x e = rw (converge, e) refl

steps :
    (m c : ℕ) (x y : ℤ)
    → is_one x ≡ false
    → collatz_conjecture x ≡ some y
    → converge (suc m) x c ≡ converge m y (c + 1)
unfolding converge
steps m c x y ne e = rw (converge, ne, e) refl

pow-positive : (m : ℕ) → 0 < 3 ^ m
pow-positive zero = omega arith
pow-positive (suc m) = let p = pow-positive m in rw (pow-suc 3 m) (omega arith)

-- The room that `m` rounds leave for one step and the others.
room : (s m : ℕ) → s * 3 ^ suc m ≤ int_bound → (3 * s * 3 ^ m ≤ int_bound) × (3 * s ≤ int_bound)
room s m le =
    let same : s * 3 ^ suc m ≡ 3 * s * 3 ^ m =
      ap (λ p. s * p) (pow-suc 3 m) ∙ simp (mul_comm, mul_assoc, mul_left_comm) refl in
    let all : 3 * s * 3 ^ m ≤ int_bound = subst (λ x. x ≤ int_bound) same le in
    let positive : 0 < 3 ^ m = pow-positive m in
    (all, le_trans (le-mul_of_pos_right (3 * s) positive) all)

-- The loop ends with at most `m` rounds counted.
converges :
    (m c : ℕ) (x : ℤ)
    → size x * 3 ^ m ≤ int_bound
    → (y : ℤ) × (j : ℕ) × (converge m x c ≡ some (y, c + j)) × (j ≤ m)
unfolding converge
converges zero c x le = (x, 0, ap (λ k. some (x, k)) (omega arith), omega arith)
converges (suc m) c x le = elim (Bool-cases (is_one x)) [
  | inl one ↦ (x, 0, stops (suc m) c x one ∙ ap (λ k. some (x, k)) (omega arith), omega arith)
  | inr more ↦
      let (all, first) = room (size x) m le in
      let (y, step, small) = one_step x first in
      let (z, j, e, jm) = converges m (c + 1) y (le_trans (mul-le-mul_right (3 ^ m) small) all) in
      (z, suc j, steps m c x y more step ∙ e ∙ ap (λ k. some (z, k)) (omega arith), omega arith)
]

counted :
    (m j : ℕ) (y : ℤ)
    → j ≤ m
    → (r : ℤ) × (iterations (pos m) (some (y, 0 + j)) ≡ some r) × IsCount m r
counted m j y le = elim (Bool-cases (not (is_one y) && eq_ℤ (pos (0 + j)) (pos m))) [
  | inl e ↦ (minus_one, rw e refl, refl)
  | inr e ↦ (pos j, rw e (ap (λ k. some (pos k)) (omega arith)), le)
]

-- When the absolute value of `input` (plus 1, if it is not negative) times 3 to the power of
-- `max_iter` is at most 2 ^ 31, no int overflows in `test_collatz_convergence`, and it returns a
-- number of steps up to `max_iter`, or -1.
pub test_collatz_convergence-IsCount :
    (input : ℤ) (m : ℕ)
    → size input * 3 ^ m ≤ int_bound
    → (r : ℤ) × (test_collatz_convergence input (pos m) ≡ some r) × IsCount m r
unfolding test_collatz_convergence
test_collatz_convergence-IsCount input m le =
    let (y, j, e, jm) = converges m 0 input le in
    let (r, e2, count) = counted m j y jm in (r, ap (iterations (pos m)) e ∙ e2, count)
