-- ===== src/Calculator/Tests.antt =====
-- A conversation of cw06/zad2 on integers in place of doubles.
use sysops.Common.{
  true, false, ℕ, ◌+◌, ◌*◌, ◌≤◌, ◌≡◌, ◌⊎◌, refl, some, List, [], ◌∷◌, ◌++◌, map, length, pos,
  negsuc, leb, loop,
}
use sysops.Calculator.{
  Doubles, Typed, ended, closed, scanning, Event, scans, asks, prints, takes, answers, answer_fails,
  Pipes, integrate, run, start, step, scan, read_range,
}
use sysops.Calculator.Order.{AllWork, ranges, run-ranges}
use sysops.Calculator.Setup.{
  PipeResults, input_pipe, output_pipe, makes, opens, closes, remove_pipes, open_and_loop,
  calculator_main, caller_main,
}
use sysops.Calculator.Progress.{BothEnded, Next, run-Next}

abbrev whole : Doubles ℕ
whole = record {
  of_long = λ n. elim n [ pos k ↦ k | negsuc k ↦ 0 ];
  add = λ a b. a + b;
  sub = λ a b. a;
  mul = λ a b. a * b;
  div = λ a b. a;
  at_least = λ a b. leb b a;
}

abbrev typed : ℕ → Typed ℕ
typed b = record { start = some 0; stop = some b; n_intervals = some (pos 2) }

-- Two valid ranges, then one that is empty.
abbrev user : List (Typed ℕ)
user = typed 1 ∷ typed 2 ∷ typed 0 ∷ typed 3 ∷ []

abbrev round : List Event
round = scans ∷ asks ∷ takes ∷ answers ∷ prints ∷ []

abbrev events : List Event
events = round ++ (round ++ (scans ∷ takes ∷ []))

abbrev at_end : Pipes ℕ
at_end = record {
  caller = ended;
  calculator = closed;
  input_pipe = [];
  output_pipe = [];
  printed = 8 ∷ 16 ∷ [];
}

conversation : run whole events (start user) ≡ some at_end
unfolding run step scan read_range integrate loop
conversation = refl

-- A calculator that cannot write its result: the caller prints 0 as the integral.
lost_result :
    run whole (scans ∷ asks ∷ takes ∷ answer_fails ∷ prints ∷ []) (start (typed 1 ∷ []))
    ≡ some (record at_end { caller = scanning []; printed = 0 ∷ [] })
unfolding run step scan read_range integrate loop
lost_result = refl

events-AllWork : AllWork events
events-AllWork = (tt, (tt, (tt, (tt, (tt, (tt, (tt, (tt, (tt, (tt, (tt, (tt, tt))))))))))))

run-ranges_example : (8 ∷ 16 ∷ []) ≡ map (integrate whole) (ranges whole user)
run-ranges_example = run-ranges whole user events at_end events-AllWork conversation refl

run-Next_example :
    (12 ≤ 5 * length (ranges whole user) + 2) × (BothEnded at_end ⊎ Next whole at_end)
run-Next_example = run-Next whole user events at_end events-AllWork conversation

abbrev pipes : PipeResults
pipes = record { input_made = true; output_made = true; input_opened = true; output_opened = true }

-- The second `mkfifo` fails: the first pipe keeps its name.
half_made :
    calculator_main (record pipes { output_made = false })
    ≡ (remove_pipes ++ (makes input_pipe ∷ []), false)
unfolding calculator_main
half_made = refl

not_opened : calculator_main (record pipes { output_opened = false }) ≡ (
  remove_pipes
      ++ (makes input_pipe
          ∷ makes output_pipe
          ∷ opens input_pipe
          ∷ (remove_pipes ++ (closes input_pipe ∷ []))),
  false,
)
unfolding calculator_main open_and_loop
not_opened = refl

caller_alone : caller_main (record pipes { input_opened = false }) ≡ ([], false)
unfolding caller_main
caller_alone = refl
