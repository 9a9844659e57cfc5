-- ===== src/Collatz/Steps.antt =====
-- `test_collatz_convergence` against the Collatz steps of mathematics.
use sysops.Common.{
  ℕ, zero, suc, ◌+◌, ◌*◌, ◌/◌, ◌%◌, ◌≡◌, ◌≢◌, ◌↔◌, ◌≤◌, ◌==◌, refl, ◌∙◌, ap, sym, true, false,
  if◌then◌else◌, leb, Option, none, some, ℤ, pos, arith, Bool-cases, inl, inr,
}
use mathlib.Core.Path.{subst}
use sysops.Collatz.{int_bound, collatz_conjecture, converge, iterations, test_collatz_convergence}

-- The step of mathematics.
unfoldable pub collatz : ℕ → ℕ
collatz n = if n % 2 == 0 then n / 2 else 3 * n + 1

-- `n` is 1 after `k` steps and not before, and the values up to then fit into an int.
abbrev pub Converges : ℕ → ℕ → Type 0
Converges n zero = n ≡ 1
Converges n (suc k) = (n ≢ 1) × (collatz n + 1 ≤ int_bound) × Converges (collatz n) k

-- What the loop leaves, from `n` on with `m` rounds and `c` steps counted before.
data Ran (n m c : ℕ) : Option (ℤ × ℕ) → Type 0 where
  converged : (k : ℕ) → k ≤ m → Converges n k → Ran n m c (some (pos 1, c + k))
  going : (x : ℕ) → (x == 1) ≡ false → Ran n m c (some (pos x, c + m))
  overflowed : Ran n m c none

-- A step of the code is a step of mathematics, or an overflow.
collatz_conjecture_lem :
    (n : ℕ)
    → n + 1 ≤ int_bound
    → collatz_conjecture (pos n)
      ≡ (if leb (collatz n + 1) int_bound then some (pos (collatz n)) else none)
unfolding collatz_conjecture collatz
collatz_conjecture_lem n le = ground arith

fits_step :
    (n : ℕ)
    → n + 1 ≤ int_bound
    → collatz n + 1 ≤ int_bound
    → collatz_conjecture (pos n) ≡ some (pos (collatz n))
fits_step n le fits =
    let yes : leb (collatz n + 1) int_bound ≡ true = ground arith in
    collatz_conjecture_lem n le ∙ ap (λ b. if b then some (pos (collatz n)) else none) yes

stops : (m n c : ℕ) → (n == 1) ≡ true → converge m (pos n) c ≡ some (pos n, c)
unfolding converge
stops zero n c e = refl
stops (suc m) n c e = rw (converge, e) refl

steps :
    (m n c next : ℕ)
    → (n == 1) ≡ false
    → collatz_conjecture (pos n) ≡ some (pos next)
    → converge (suc m) (pos n) c ≡ converge m (pos next) (c + 1)
unfolding converge
steps m n c next ne e = rw (converge, ne, e) refl

one_step :
    (m n c : ℕ) (o : Option (ℤ × ℕ))
    → Ran (collatz n) m (c + 1) o
    → (n == 1) ≡ false
    → collatz n + 1 ≤ int_bound
    → Ran n (suc m) c o
one_step m n c o (converged k km conv) ne fits =
    let not_one : n ≢ 1 = ground arith in
    let later : c + suc k ≡ c + 1 + k = omega arith in
    subst (λ x. Ran n (suc m) c (some (pos 1, x))) later
      (converged (suc k) (omega arith) (not_one, fits, conv))
one_step m n c o (going x x_ne) ne fits =
    let later : c + suc m ≡ c + 1 + m = omega arith in
    subst (λ y. Ran n (suc m) c (some (pos x, y))) later (going x x_ne)
one_step m n c o overflowed ne fits = overflowed

at_one : (m n c : ℕ) → (n == 1) ≡ true → Ran n m c (some (pos n, c))
at_one m n c e =
    let one : 1 ≡ n = ground arith in
    let same : c + 0 ≡ c = omega arith in
    subst (λ a. Ran n m c (some (pos a, c))) one
      (subst (λ y. Ran n m c (some (pos 1, y))) same (converged 0 (omega arith) (sym one)))

going_on :
    (m n c : ℕ)
    → n + 1 ≤ int_bound
    → (n == 1) ≡ false
    → (collatz n + 1 ≤ int_bound → Ran (collatz n) m (c + 1) (converge m (pos (collatz n)) (c + 1)))
    → Ran n (suc m) c (converge (suc m) (pos n) c)
unfolding converge
going_on m n c le ne later = elim (Bool-cases (leb (collatz n + 1) int_bound)) [
  | inl e ↦
      let fits : collatz n + 1 ≤ int_bound = ground arith in
      subst (λ o. Ran n (suc m) c o) (sym (steps m n c (collatz n) ne (fits_step n le fits)))
        (one_step m n c (converge m (pos (collatz n)) (c + 1)) (later fits) ne fits)
  | inr e ↦
      let over : collatz_conjecture (pos n) ≡ none =
        collatz_conjecture_lem n le ∙ ap (λ b. if b then some (pos (collatz n)) else none) e in
      rw (converge, ne, over) overflowed
]

ran : (m n c : ℕ) → n + 1 ≤ int_bound → Ran n m c (converge m (pos n) c)
unfolding converge
ran zero n c le = elim (Bool-cases (n == 1)) [
  | inl e ↦ at_one 0 n c e
  | inr ne ↦
      let same : c + 0 ≡ c = omega arith in
      subst (λ y. Ran n 0 c (some (pos n, y))) same (going n ne)
]
ran (suc m) n c le = elim (Bool-cases (n == 1)) [
  | inl e ↦ subst (λ o. Ran n (suc m) c o) (sym (stops (suc m) n c e)) (at_one (suc m) n c e)
  | inr ne ↦ going_on m n c le ne (λ fits. ran m (collatz n) (c + 1) fits)
]

converge-Converges :
    (m n c k : ℕ)
    → n + 1 ≤ int_bound
    → Converges n k
    → k ≤ m
    → converge m (pos n) c ≡ some (pos 1, c + k)
converge-Converges m n c zero le conv km =
    stops m n c (ground arith)
    ∙ ap (λ a. some (pos a, c)) conv
    ∙ ap (λ b. some (pos 1, b)) (omega arith)
converge-Converges zero n c (suc k) le conv km = ground arith
converge-Converges (suc m) n c (suc k) le (ne, fits, conv) km =
    steps m n c (collatz n) (ground arith) (fits_step n le fits)
    ∙ converge-Converges m (collatz n) (c + 1) k fits conv (omega arith)
    ∙ ap (λ y. some (pos 1, y)) (omega arith)

counted :
    (n m k : ℕ) (o : Option (ℤ × ℕ))
    → Ran n m 0 o
    → iterations (pos m) o ≡ some (pos k)
    → Converges n k × (k ≤ m)
counted n m k o (converged j jm conv) e =
    let same : j ≡ k = ground arith in (subst (Converges n) same conv, omega arith)
counted n m k o (going x ne) e = ground arith
counted n m k o overflowed e = ground arith

-- For an int that is not negative and a bound that is not negative, `test_collatz_convergence`
-- returns a number of steps if and only if the number reaches 1 after so many Collatz steps, not
-- before, within the bound, and no value on the way overflows an int.
pub test_collatz_convergence-Converges :
    (n m k : ℕ)
    → n + 1 ≤ int_bound
    → (test_collatz_convergence (pos n) (pos m) ≡ some (pos k)) ↔ (Converges n k × (k ≤ m))
unfolding test_collatz_convergence
test_collatz_convergence-Converges n m k le = (
  λ e. counted n m k (converge m (pos n) 0) (ran m n 0 le) e,
  λ (conv, km).
      ap (iterations (pos m))
        (converge-Converges m n 0 k le conv km ∙ ap (λ y. some (pos 1, y)) (omega arith)),
)
