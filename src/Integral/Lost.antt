-- ===== src/Integral/Lost.antt =====
-- What the parent of cw06/zad1 makes of children that fail to write.
use sysops.Common.{
  loop, ℕ, zero, suc, ◌+◌, ◌≤◌, ◌<◌, ◌≡◌, ◌==◌, refl, ◌∙◌, ap, sym, true, false, if◌then◌else◌,
  Bool, ltb, some, pos, arith,
}
use sysops.Integral.{
  Doubles, Child, not_forked, not_written, written, is_forked, Processes, result, child_result,
  distribute_calculations, read_from, add_results, open_pipes, printed, integrate, main,
  range_start, range_stop,
}

abbrev pub is_written : Child → Bool
is_written written = true
is_written _ = false

-- All calls of the parent work.
pub record ParentWorks (p : Processes) : Type 0 where
  pub opens : (i : ℕ) → p.opens i ≡ true
  pub reads : (i : ℕ) → p.reads i ≡ true
  pub forks : (i : ℕ) → is_forked (p.child i) ≡ true

module _ {ℓ} {W : Type ℓ} (d : Doubles W) (p : Processes) (w : ParentWorks p) where
  pub opened : (rest i : ℕ) → open_pipes d p rest i ≡ true
  unfolding open_pipes
  opened zero i = refl
  opened (suc rest) i = rw (w.opens i) (opened rest (i + 1))

  pub distributed : (rest i : ℕ) → distribute_calculations d p rest i ≡ true
  unfolding distribute_calculations
  distributed zero i = refl
  distributed (suc rest) i = rw (w.forks i) (distributed rest (i + 1))

  -- The parts that were written.
  abbrev pub add_written : (ℕ → W) → ℕ → W → W
  add_written value i sum = d.add sum (if is_written (p.child i) then value i else d.of_long 0)

  read_lem : (c : Child) (v : W) → read_from d c v ≡ (if is_written c then v else d.of_long 0)
  read_lem not_forked v = refl
  read_lem not_written v = refl
  read_lem written v = refl

  added :
      (value : ℕ → W) (rest i : ℕ) (sum : W)
      → add_results d p value rest i sum ≡ some (loop rest i (add_written value) sum)
  unfolding add_results loop
  added value zero i sum = refl
  added value (suc rest) i sum =
      rw (w.reads i, read_lem (p.child i) (value i))
        (added value rest (i + 1) (add_written value i sum)
          ∙ ap (λ k. some (loop rest k (add_written value) (add_written value i sum))) next)
    where
      next : i + 1 ≡ suc i
      next = omega arith

-- A child that fails to write is not noticed: when all calls of the parent work, `main` ends with a
-- result whatever the children do, and the part of each child that wrote nothing counts as 0.
main-add_written {ℓ} :
    {W : Type ℓ} (d : Doubles W) (p : Processes) (w : ParentWorks p) (dx : W) (n total : ℕ)
    → total ≡ d.ceil_of (d.div (d.sub (range_stop d) (range_start d)) dx)
    → d.is_positive dx ≡ true
    → 0 < n
    → n ≤ total
    → main d p dx (pos n)
      ≡ result (loop n 0 (add_written d p w (child_result d n total dx)) (d.of_long 0))
unfolding main integrate
main-add_written d p w dx n total e positive some_process few =
    let not_none : (n == 0) ≡ false = ground arith in
    let enough : ltb total n ≡ false = ground arith in
    rw (sym e, not_none, positive, enough, opened d p w n 0, distributed d p w n 0)
      (ap (printed d) (added d p w (child_result d n total dx) n 0 (d.of_long 0)))
