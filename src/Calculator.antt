-- ===== src/Calculator.antt =====
-- cw06/zad2: integrals on request over two named pipes (caller.c, calculator.c, communication.h). A
-- double stands as a parameter with the operations that the code uses.
pub mod Order
pub mod Progress
pub mod Setup
mod Tests
use sysops.Common.{
  loop, ℕ, zero, suc, ◌==◌, Bool, true, false, if◌then◌else◌, ◌||◌, Option, none, some, ℤ,
  is_positive, rounds_of, pos, negsuc, List, [], ◌∷◌, ◌++◌,
}

-- Doubles. `at_least x y` is `x >= y`.
pub record Doubles {ℓ} (W : Type ℓ) : Type ℓ where
  pub of_long : ℤ → W
  pub add : W → W → W
  pub sub : W → W → W
  pub mul : W → W → W
  pub div : W → W → W
  pub at_least : W → W → Bool

pub record RangeInfo {ℓ} (W : Type ℓ) : Type ℓ where
  pub start : W
  pub stop : W
  pub n_intervals : ℤ

-- What the three calls of `scanf` read in a round of the caller; `none` where one fails.
pub record Typed {ℓ} (W : Type ℓ) : Type ℓ where
  pub start : Option W
  pub stop : Option W
  pub n_intervals : Option ℤ

-- Where the caller stands: at the first `scanf`, at its `write`, at its `read`, or behind its loop.
pub data Caller {ℓ} (W : Type ℓ) : Type ℓ where
  scanning : List (Typed W) → Caller W
  writing : RangeInfo W → List (Typed W) → Caller W
  reading : List (Typed W) → Caller W
  ended : Caller W

-- Where the calculator stands: at its `read`, at its `write` with a result, or behind its loop.
pub data Calculator {ℓ} (W : Type ℓ) : Type ℓ where
  waiting : Calculator W
  answering : W → Calculator W
  closed : Calculator W

pub record Pipes {ℓ} (W : Type ℓ) : Type ℓ where
  pub caller : Caller W
  pub calculator : Calculator W
  pub input_pipe : List (RangeInfo W)
  pub output_pipe : List W
  pub printed : List W

-- What happens next: the caller scans, writes or reads, the calculator reads or writes; or a call
-- fails.
pub data Event : Type 0 where
  scans asks prints takes answers ask_fails read_fails answer_fails : Event

infixl 5 ◌>>=◌
abbrev pub ◌>>=◌ {ℓ ℓ'} : {A : Type ℓ} {B : Type ℓ'} → Option A → (A → Option B) → Option B
none >>= f = none
some a >>= f = f a

module _ {ℓ} {W : Type ℓ} (d : Doubles W) where
  open d use {of_long, add, sub, mul, div, at_least}

  unfoldable pub integrate : RangeInfo W → W
  unfolding loop
  integrate r =
      let dx = div (sub r.stop r.start) (of_long r.n_intervals) in
      mul
        (loop (rounds_of r.n_intervals) 0
          (λ i integral.
            let x = add r.start (mul (of_long (pos i)) dx) in
            add integral (div (of_long (pos 4)) (add (of_long (pos 1)) (mul x x))))
          (of_long (pos 0)))
        dx

  -- The range of a round of the caller, when all three are read and it is valid.
  unfoldable pub read_range : Typed W → Option (RangeInfo W)
  read_range t = do
    start ← t.start
    stop ← t.stop
    n_intervals ← t.n_intervals
    (if is_positive n_intervals
        then (if at_least start stop
            then none
            else some (record { start = start; stop = stop; n_intervals = n_intervals }))
        else none)

  -- The caller at the start of a round.
  unfoldable pub scan : List (Typed W) → Caller W
  unfolding read_range
  scan [] = ended
  scan (t ∷ ts) = elim (read_range t) [ none ↦ ended | some r ↦ writing r ts ]

  -- The `read` of the caller: a pipe that is empty and closed leaves the 0 in `integral`.
  abbrev pub print_next : Pipes W → List (Typed W) → Option (Pipes W)
  print_next s ts = elim s.output_pipe [
    | [] ↦ elim s.calculator [
      | closed ↦
          some (record s { caller = scanning ts; printed = s.printed ++ (of_long (pos 0) ∷ []) })
      | waiting ↦ none
      | answering w ↦ none
    ]
    | w ∷ ws ↦
        some (record s { caller = scanning ts; output_pipe = ws; printed = s.printed ++ (w ∷ []) })
  ]

  -- The `read` of the calculator, which ends it when the pipe is empty and the caller has closed
  -- it.
  abbrev pub take_next : Pipes W → Option (Pipes W)
  take_next s = elim s.input_pipe [
    | [] ↦ elim s.caller [
      | ended ↦ some (record s { calculator = closed })
      | scanning ts ↦ none
      | writing r ts ↦ none
      | reading ts ↦ none
    ]
    | r ∷ rs ↦ some (record s { calculator = answering (integrate r); input_pipe = rs })
  ]

  -- A step of either loop, if it is its turn.
  unfoldable pub step : Event → Pipes W → Option (Pipes W)
  unfolding scan integrate
  step scans s = elim s.caller [ scanning ts ↦ some (record s { caller = scan ts }) | _ ↦ none ]
  step asks s = elim s.caller [
    | writing r ts ↦ elim s.calculator [
      | closed ↦ none
      | _ ↦ some (record s { caller = reading ts; input_pipe = s.input_pipe ++ (r ∷ []) })
    ]
    | _ ↦ none
  ]
  step ask_fails s = elim s.caller [ writing r ts ↦ some (record s { caller = ended }) | _ ↦ none ]
  step prints s = elim s.caller [ reading ts ↦ print_next s ts | _ ↦ none ]
  step read_fails s = elim s.caller [ reading ts ↦ some (record s { caller = ended }) | _ ↦ none ]
  step takes s = elim s.calculator [ waiting ↦ take_next s | _ ↦ none ]
  step answers s = elim s.calculator [
    | answering w ↦ elim s.caller [
      | ended ↦ none
      | _ ↦ some (record s { calculator = waiting; output_pipe = s.output_pipe ++ (w ∷ []) })
    ]
    | _ ↦ none
  ]
  step answer_fails s = elim s.calculator [
    | answering w ↦ some (record s { calculator = closed })
    | _ ↦ none
  ]

  unfoldable pub run : List Event → Pipes W → Option (Pipes W)
  unfolding step
  run [] s = some s
  run (e ∷ es) s = elim (step e s) [ none ↦ none | some t ↦ run es t ]

-- Both pipes open and empty.
abbrev pub start {ℓ} : {W : Type ℓ} → List (Typed W) → Pipes W
start ts = record {
  caller = scanning ts;
  calculator = waiting;
  input_pipe = [];
  output_pipe = [];
  printed = [];
}
