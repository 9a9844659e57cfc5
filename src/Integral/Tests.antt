-- ===== src/Integral/Tests.antt =====
-- The processes of cw06/zad1 on natural numbers in place of doubles, and the theorems there.
use sysops.Common.{
  [], ◌∷◌, loop, ℕ, zero, suc, ◌+◌, ◌-◌, ◌*◌, ◌/◌, ◌≡◌, refl, true, ltb, pos, arith,
}
use native.Mathlib.Nat.{add-mul}
use sysops.Integral.{
  Doubles, Child, written, not_written, is_forked, Processes, result, calculate_part, main,
}
use sysops.Integral.Shares.{shares, rectangles, shares-rectangles}
use sysops.Integral.Exact.{IsExact, main-calculate_part}
use sysops.Integral.Lost.{ParentWorks}

-- Seven rectangles for each unit of `1 / dx`.
abbrev whole : Doubles ℕ
whole = record {
  of_long = λ k. k;
  add = λ a b. a + b;
  sub = λ a b. a - b;
  mul = λ a b. a * b;
  div = λ a b. a / b;
  is_positive = λ a. ltb 0 a;
  ceil_of = λ a. 7 * a;
}

whole-IsExact : IsExact whole
whole-IsExact = record {
  assoc = λ a b c. omega arith;
  add-zero = λ a. omega arith;
  grid = λ s dx a b. omega (arith, add-mul a b dx);
}

abbrev healthy : Processes
healthy = record { opens = λ i. true; reads = λ i. true; child = λ i. written }

-- The first child cannot write.
abbrev child_of : ℕ → Child
child_of zero = not_written
child_of (suc k) = written

abbrev broken : Processes
broken = record healthy { child = child_of }

healthy_runs : main whole healthy 1 (pos 3) ≡ result 6
unfolding main calculate_part loop
healthy_runs = refl

broken_runs : main whole broken 1 (pos 3) ≡ result 0
unfolding main calculate_part loop
broken_runs = refl

main-calculate_part_example : main whole healthy 1 (pos 3) ≡ result (calculate_part whole 0 1 7)
main-calculate_part_example =
    main-calculate_part whole healthy 1 3 whole-IsExact
      (record { opens = λ i. refl; reads = λ i. refl; writes = λ i. refl }) refl (omega arith)
      (omega arith)

forked : (i : ℕ) → is_forked (child_of i) ≡ true
forked zero = refl
forked (suc k) = refl

broken-ParentWorks : ParentWorks broken
broken-ParentWorks = record { opens = λ i. refl; reads = λ i. refl; forks = forked }

three_shares : shares 3 7 ≡ 0 ∷ 1 ∷ 2 ∷ 3 ∷ 4 ∷ 5 ∷ 6 ∷ []
unfolding shares loop rectangles
three_shares = refl

shares-rectangles_example : shares 3 7 ≡ rectangles 0 7
shares-rectangles_example = shares-rectangles 3 7 (omega arith)
