-- ===== src/Calculator/Order.antt =====
-- The invariant of the two processes of cw06/zad2 when no call fails: the order of the results, and
-- what is in flight.
use sysops.Common.{
  ℕ, ◌+◌, ◌*◌, ◌≡◌, refl, ◌∙◌, ap, sym, Option, none, some, List, [], ◌∷◌, ◌++◌, map, length,
  append_assoc, append-nil, arith, Option-cases, inl, inr,
}
use mathlib.Core.Path.{subst}
use sysops.Calculator.{
  Doubles, RangeInfo, Typed, Caller, scanning, writing, reading, ended, Calculator, waiting,
  answering, closed, Pipes, Event, scans, asks, prints, takes, answers, ask_fails, read_fails,
  answer_fails, integrate, read_range, scan, step, run, start,
}

-- No call fails.
abbrev pub Works : Event → Type 0
Works ask_fails = ⊥
Works read_fails = ⊥
Works answer_fails = ⊥
Works _ = Unit {0}

abbrev pub AllWork : List Event → Type 0
AllWork [] = Unit {0}
AllWork (e ∷ es) = Works e × AllWork es

module _ {ℓ} {W : Type ℓ} (d : Doubles W) where
  -- The valid ranges that the user types, up to the first that is not.
  unfoldable pub ranges : List (Typed W) → List (RangeInfo W)
  ranges [] = []
  ranges (t ∷ ts) = elim (read_range d t) [ none ↦ [] | some r ↦ r ∷ ranges ts ]

  -- The ranges that the caller has still to write.
  abbrev pub unasked : Caller W → List (RangeInfo W)
  unasked (scanning ts) = ranges ts
  unasked (writing r ts) = r ∷ ranges ts
  unasked (reading ts) = ranges ts
  unasked ended = []

  abbrev pub in_hand : Calculator W → List W
  in_hand (answering w) = w ∷ []
  in_hand _ = []

  -- The results on their way, and those of the ranges to come.
  abbrev pub to_come : Pipes W → List W
  to_come s =
      s.output_pipe
      ++ (in_hand s.calculator ++ map (integrate d) (s.input_pipe ++ unasked s.caller))

  ranges-scan : (ts : List (Typed W)) → unasked (scan d ts) ≡ ranges ts
  unfolding scan ranges
  ranges-scan [] = refl
  ranges-scan (t ∷ ts) = elim (Option-cases (read_range d t)) [
    | inl e ↦ rw (unasked, scan, ranges, e) refl
    | inr (r, e) ↦ rw (unasked, scan, ranges, e) refl
  ]

  -- What can be where.
  pub data Phase : Caller W → Calculator W → List (RangeInfo W) → List W → Type ℓ where
    idle : (ts : List (Typed W)) → Phase (scanning ts) waiting [] []
    ready : (r : RangeInfo W) (ts : List (Typed W)) → Phase (writing r ts) waiting [] []
    asked : (r : RangeInfo W) (ts : List (Typed W)) → Phase (reading ts) waiting (r ∷ []) []
    computed : (w : W) (ts : List (Typed W)) → Phase (reading ts) (answering w) [] []
    answered : (w : W) (ts : List (Typed W)) → Phase (reading ts) waiting [] (w ∷ [])
    hung_up : Phase ended waiting [] []
    over : Phase ended closed [] []

  abbrev pub InPhase : Pipes W → Type ℓ
  InPhase s = Phase s.caller s.calculator s.input_pipe s.output_pipe

  abbrev pub caller_steps : Caller W → ℕ
  caller_steps (scanning ts) = 1
  caller_steps (writing r ts) = 0
  caller_steps (reading ts) = 1
  caller_steps ended = 0

  abbrev pub calculator_steps : Calculator W → ℕ
  calculator_steps closed = 0
  calculator_steps _ = 1

  -- How many steps are left.
  abbrev pub steps_left : Pipes W → ℕ
  steps_left s =
      5 * length (unasked s.caller)
      + (caller_steps s.caller + calculator_steps s.calculator)
      + (3 * length s.input_pipe + 2 * length (in_hand s.calculator) + length s.output_pipe)

  pub record Follows (s t : Pipes W) : Type ℓ where
    pub phase : InPhase t
    pub results : t.printed ++ to_come t ≡ s.printed ++ to_come s
    pub count : steps_left t + 1 ≡ steps_left s

  abbrev Kept : Pipes W → Option (Pipes W) → Type ℓ
  Kept s none = Unit
  Kept s (some t) = Follows s t

  scan-Phase : (ts : List (Typed W)) → Phase (scan d ts) waiting [] []
  unfolding scan
  scan-Phase [] = hung_up
  scan-Phase (t ∷ ts) = elim (Option-cases (read_range d t)) [
    | inl e ↦ rw (scan, e) hung_up
    | inr (r, e) ↦ rw (scan, e) (ready r ts)
  ]

  caller_steps-scan : (ts : List (Typed W)) → caller_steps (scan d ts) ≡ 0
  unfolding scan
  caller_steps-scan [] = refl
  caller_steps-scan (t ∷ ts) = elim (Option-cases (read_range d t)) [
    | inl e ↦ rw (caller_steps, scan, e) refl
    | inr (r, e) ↦ rw (caller_steps, scan, e) refl
  ]

  kept :
      (e : Event) (c : Caller W) (k : Calculator W) (i : List (RangeInfo W)) (o p : List W)
      → Works e
      → Phase c k i o
      → Kept
          (record { caller = c; calculator = k; input_pipe = i; output_pipe = o; printed = p })
          (step d e
            (record { caller = c; calculator = k; input_pipe = i; output_pipe = o; printed = p }))
  unfolding step
  kept scans c k i o p w (idle ts) = record {
    phase = scan-Phase ts;
    results = ap (λ rs. p ++ map (integrate d) rs) (ranges-scan ts);
    count = rw (ranges-scan ts, caller_steps-scan ts) (omega arith);
  }
  kept asks c k i o p w (ready r ts) = record {
    phase = asked r ts;
    results = refl;
    count = omega arith;
  }
  kept takes c k i o p w (asked r ts) = record {
    phase = computed (integrate d r) ts;
    results = refl;
    count = omega arith;
  }
  kept answers c k i o p w (computed v ts) = record {
    phase = answered v ts;
    results = refl;
    count = omega arith;
  }
  kept prints c k i o p w (answered v ts) = record {
    phase = idle ts;
    results = append_assoc p (v ∷ []) (map (integrate d) (ranges ts));
    count = omega arith;
  }
  kept takes c k i o p w hung_up = record { phase = over; results = refl; count = omega arith }
  kept ask_fails c k i o p w ph = absurd w
  kept read_fails c k i o p w ph = absurd w
  kept answer_fails c k i o p w ph = absurd w
  kept e c k i o p w ph = tt

  pub next_lem :
      (e : Event) (s t : Pipes W) → Works e → InPhase s → step d e s ≡ some t → Follows s t
  next_lem e s t w ph eq =
      subst (Kept s) eq (kept e s.caller s.calculator s.input_pipe s.output_pipe s.printed w ph)

  -- What a run keeps from a state in a phase.
  pub record Ran (es : List Event) (s t : Pipes W) : Type ℓ where
    pub phase : InPhase t
    pub results : t.printed ++ to_come t ≡ s.printed ++ to_come s
    pub count : steps_left t + length es ≡ steps_left s

  pub runs :
      (es : List Event) (s t : Pipes W) → AllWork es → InPhase s → run d es s ≡ some t → Ran es s t
  unfolding run
  runs [] s t w ph eq =
      let same : s ≡ t = ground arith in
      subst (Ran [] s) same (record { phase = ph; results = refl; count = omega arith })
  runs (e ∷ es) s t (w, ws) ph eq = elim (Option-cases (step d e s)) [
    | inl none_next ↦ let stuck : run d (e ∷ es) s ≡ none = rw (run, none_next) refl in ground arith
    | inr (u, next) ↦
        let f = next_lem e s u w ph next in
        let goes : run d (e ∷ es) s ≡ run d es u = rw (run, next) refl in
        let r = runs es u t ws f.phase (sym goes ∙ eq) in
        record {
          phase = r.phase;
          results = r.results ∙ f.results;
          count = (let a = r.count in let b = f.count in omega arith);
        }
  ]

  -- At the end of the caller nothing is left to come.
  ended_lem :
      (c : Caller W) (k : Calculator W) (i : List (RangeInfo W)) (o : List W)
      → c ≡ ended
      → Phase c k i o
      → o ++ (in_hand k ++ map (integrate d) (i ++ unasked c)) ≡ []
  ended_lem c k i o e hung_up = refl
  ended_lem c k i o e over = refl
  ended_lem c k i o e ph = ground arith

-- In any order of the steps of the two processes in which no call fails, when the caller has ended
-- it has printed the integral of each valid range that was typed, in order, up to the first round
-- that is not valid, each once.
pub run-ranges {ℓ} :
    {W : Type ℓ} (d : Doubles W) (ts : List (Typed W)) (es : List Event) (s : Pipes W)
    → AllWork es
    → run d es (start ts) ≡ some s
    → s.caller ≡ ended
    → s.printed ≡ map (integrate d) (ranges d ts)
run-ranges d ts es s w eq e =
    let r = runs d es (start ts) s w (idle ts) eq in
    let nothing = ended_lem d s.caller s.calculator s.input_pipe s.output_pipe e r.phase in
    sym (append-nil s.printed) ∙ ap (λ x. s.printed ++ x) (sym nothing) ∙ r.results
