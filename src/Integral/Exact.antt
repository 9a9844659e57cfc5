-- ===== src/Integral/Exact.antt =====
-- The parts of the processes of cw06/zad1 put together, in exact arithmetic.
use sysops.Common.{
  loop, loop-add, ℕ, zero, suc, ◌+◌, ◌-◌, ◌*◌, ◌/◌, ◌%◌, ◌≤◌, ◌<◌, ◌≡◌, ◌==◌, refl, ◌∙◌, ap, sym,
  true, false, if◌then◌else◌, ltb, some, pos, arith, Bool-cases, inl, inr,
}
use sysops.Integral.Lost.{ParentWorks, opened, distributed}
use native.Mathlib.Nat.{div-add-mod, add-mul, one-mul, zero-mul}
use sysops.Integral.{
  Doubles, written, is_forked, Processes, result, add_area, calculate_part, child_result,
  add_results, printed, integrate, main, range_start, range_stop,
}

-- What rounding spoils: sums may be regrouped, zero adds nothing, and the points of the grid may be
-- reached in two steps.
pub record IsExact {ℓ} {W : Type ℓ} (d : Doubles W) : Type ℓ where
  pub assoc : (a b c : W) → d.add (d.add a b) c ≡ d.add a (d.add b c)
  pub add-zero : (a : W) → d.add a (d.of_long 0) ≡ a
  pub grid :
      (s dx : W) (a b : ℕ)
      → d.add (d.add s (d.mul (d.of_long a) dx)) (d.mul (d.of_long b) dx)
        ≡ d.add s (d.mul (d.of_long (a + b)) dx)

-- Everything that the program asks of the system works.
pub record AllWork (p : Processes) : Type 0 where
  pub opens : (i : ℕ) → p.opens i ≡ true
  pub reads : (i : ℕ) → p.reads i ≡ true
  pub writes : (i : ℕ) → p.child i ≡ written

module _ {ℓ} {W : Type ℓ} (d : Doubles W) (x : IsExact d) (dx : W) where
  -- The area over the rectangle at index `k` of the whole grid, added.
  abbrev at : ℕ → W → W
  at k area = add_area d dx (d.add (range_start d) (d.mul (d.of_long k) dx)) area

  -- A loop from index `a` adds to any sum what it makes of zero.
  loop_from : (m a : ℕ) (sum area : W) → d.add sum (loop m a at area) ≡ loop m a at (d.add sum area)
  unfolding loop
  loop_from zero a sum area = refl
  loop_from (suc m) a sum area =
      loop_from m (suc a) sum (at a area) ∙ ap (loop m (suc a) at) (sym (x.assoc sum area _))

  shifted :
      (m i a k : ℕ) (area : W)
      → a + i ≡ k
      → loop m i
          (λ j area.
            add_area d dx
              (d.add (d.add (range_start d) (d.mul (d.of_long a) dx)) (d.mul (d.of_long j) dx))
              area)
          area
        ≡ loop m k at area
  unfolding loop
  shifted zero i a k area e = refl
  shifted (suc m) i a k area e =
      shifted m (suc i) a (suc k) _ (omega arith)
      ∙ ap (λ y. loop m (suc k) at (add_area d dx y area))
          (x.grid (range_start d) dx a i
            ∙ ap (λ j. d.add (range_start d) (d.mul (d.of_long j) dx)) e)

  -- The part from index `a` on.
  part :
      (m a : ℕ) (sum : W)
      → d.add sum (calculate_part d (d.add (range_start d) (d.mul (d.of_long a) dx)) dx m)
        ≡ loop m a at sum
  unfolding calculate_part
  part m a sum =
      ap (d.add sum) (shifted m 0 a a (d.of_long 0) (omega arith))
      ∙ loop_from m a sum (d.of_long 0)
      ∙ ap (loop m a at) (x.add-zero sum)

  zero_area : W
  zero_area = d.of_long 0

  module _ (n total : ℕ) (some_process : 0 < n) where
    steps : ℕ
    steps = total / n

    -- How many rectangles the processes before `i` have.
    before : ℕ → ℕ
    before i = if i == n then total else i * steps

    own : ℕ → ℕ
    own i = if i == n - 1 then steps + total % n else steps

    before_lt : (i : ℕ) → i < n → before i ≡ i * steps
    unfolding before
    before_lt i h = ground arith

    next_before : (i : ℕ) → i < n → i * steps + own i ≡ before (i + 1)
    unfolding before own steps
    next_before i h = elim (Bool-cases (i + 1 == n)) [
      | inl last ↦
          (let here : (i == n - 1) ≡ true = ground arith in
            let all : i + 1 ≡ n = ground arith in
            rw (last, here)
              (omega (
                arith,
                total_steps,
                add-mul i 1 steps,
                ap (λ (k : ℕ). k * steps) all,
                one-mul steps,
              )))
      | inr more ↦
          (let here : (i == n - 1) ≡ false = ground arith in
            rw (more, here) (omega (arith, add-mul i 1 steps, one-mul steps)))
    ]
      where
        total_steps : n * steps + total % n ≡ total
        total_steps = div-add-mod total n

    child_adds :
        (i : ℕ)
        → i < n
        → d.add (loop (before i) 0 at zero_area) (child_result d n total dx i)
          ≡ loop (before (i + 1)) 0 at zero_area
    unfolding child_result own steps
    child_adds i h =
        ap (λ k. d.add (loop k 0 at zero_area) (child_result d n total dx i)) (before_lt i h)
        ∙ part (own i) (i * steps) (loop (i * steps) 0 at zero_area)
        ∙ loop-add (i * steps) (own i) (i * steps) 0 at zero_area (omega arith)
        ∙ ap (λ k. loop k 0 at zero_area) (next_before i h)

    results_add :
        (p : Processes) (rest i : ℕ)
        → AllWork p
        → i + rest ≡ n
        → add_results d p (child_result d n total dx) rest i (loop (before i) 0 at zero_area)
          ≡ some (loop total 0 at zero_area)
    unfolding add_results before
    results_add p zero i w e = let done : (i == n) ≡ true = ground arith in rw done refl
    results_add p (suc rest) i w e =
        rw (w.reads i, w.writes i, child_adds i (omega arith))
          (results_add p rest (i + 1) w (omega arith))

    results_add_all :
        (p : Processes)
        → AllWork p
        → add_results d p (child_result d n total dx) n 0 zero_area
          ≡ some (calculate_part d (range_start d) dx total)
    unfolding zero_area calculate_part
    results_add_all p w =
        ap (λ k. add_results d p (child_result d n total dx) n 0 (loop k 0 at zero_area))
          (sym (before_lt 0 some_process ∙ zero-mul steps))
        ∙ results_add p n 0 w (omega arith)

AllWork-ParentWorks : (p : Processes) → AllWork p → ParentWorks p
AllWork-ParentWorks p w = record {
  opens = w.opens;
  reads = w.reads;
  forks = λ i. ap is_forked (w.writes i);
}

-- If arithmetic were exact, and as long as every pipe, process, read and write works: for a
-- positive `dx` and from one process up to as many as there are rectangles, `main` prints the very
-- sum that `calculate_part` makes alone of all rectangles from `range_start` on: each rectangle is
-- in exactly one part, also where the number of processes does not divide theirs.
pub main-calculate_part {ℓ} :
    {W : Type ℓ} (d : Doubles W) (p : Processes) (dx : W) (n : ℕ)
    → IsExact d
    → AllWork p
    → d.is_positive dx ≡ true
    → 0 < n
    → n ≤ d.ceil_of (d.div (d.sub (range_stop d) (range_start d)) dx)
    → main d p dx (pos n)
      ≡ result (
          calculate_part d
            (range_start d)
            dx
            (d.ceil_of (d.div (d.sub (range_stop d) (range_start d)) dx)))
unfolding main integrate zero_area
main-calculate_part d p dx n x w positive some_process few =
    let total = d.ceil_of (d.div (d.sub (range_stop d) (range_start d)) dx) in
    let not_none : (n == 0) ≡ false = ground arith in
    let enough : ltb total n ≡ false = ground arith in
    rw
      (
        not_none,
        positive,
        enough,
        opened d p (AllWork-ParentWorks p w) n 0,
        distributed d p (AllWork-ParentWorks p w) n 0,
      )
      (ap (printed d) (results_add_all d x dx n total some_process p w))
