-- ===== src/Calculator/Progress.antt =====
-- The steps that are left in a run of cw06/zad2, and the next one.
use sysops.Common.{◌+◌, ◌*◌, ◌≤◌, ◌≡◌, ◌⊎◌, inl, inr, refl, some, List, [], length, arith}
use sysops.Calculator.{
  Doubles, RangeInfo, Typed, Caller, ended, Calculator, closed, Pipes, Event, scans, asks, prints,
  takes, answers, step, run, start,
}
use sysops.Calculator.Order.{
  Works, AllWork, ranges, Phase, idle, ready, asked, computed, answered, hung_up, over, runs,
}

-- Both loops have ended, and the pipes are empty.
pub record BothEnded {ℓ} {W : Type ℓ} (s : Pipes W) : Type ℓ where
  pub caller : s.caller ≡ ended
  pub calculator : s.calculator ≡ closed
  pub input_pipe : s.input_pipe ≡ []
  pub output_pipe : s.output_pipe ≡ []

module _ {ℓ} {W : Type ℓ} (d : Doubles W) where
  -- A step that is possible and in which no call fails.
  abbrev pub Next : Pipes W → Type ℓ
  Next s = (e : Event) × (t : Pipes W) × Works e × (step d e s ≡ some t)

  some_step :
      (c : Caller W) (k : Calculator W) (i : List (RangeInfo W)) (o p : List W)
      → Phase d c k i o
      → BothEnded
          (record { caller = c; calculator = k; input_pipe = i; output_pipe = o; printed = p })
        ⊎ Next (record { caller = c; calculator = k; input_pipe = i; output_pipe = o; printed = p })
  unfolding step
  some_step c k i o p (idle ts) = inr (scans, _, tt, refl)
  some_step c k i o p (ready r ts) = inr (asks, _, tt, refl)
  some_step c k i o p (asked r ts) = inr (takes, _, tt, refl)
  some_step c k i o p (computed w ts) = inr (answers, _, tt, refl)
  some_step c k i o p (answered w ts) = inr (prints, _, tt, refl)
  some_step c k i o p hung_up = inr (takes, _, tt, refl)
  some_step c k i o p over =
      inl (record { caller = refl; calculator = refl; input_pipe = refl; output_pipe = refl })

-- A run in which no call fails has at most five steps for each valid range that is typed, and two
-- more; and where it is, both loops have ended with both pipes empty, or a step is possible in
-- which no call fails.
pub run-Next {ℓ} :
    {W : Type ℓ} (d : Doubles W) (ts : List (Typed W)) (es : List Event) (s : Pipes W)
    → AllWork es
    → run d es (start ts) ≡ some s
    → (length es ≤ 5 * length (ranges d ts) + 2) × (BothEnded s ⊎ Next d s)
run-Next d ts es s w eq =
    let r = runs d es (start ts) s w (idle ts) eq in
    let count = r.count in
    (omega arith, some_step d s.caller s.calculator s.input_pipe s.output_pipe s.printed r.phase)
