-- ===== src/Life/Tests.antt =====
-- The game on small boards, and the theorems at concrete inputs.
use sysops.Common.{
  ℕ, zero, suc, ◌≡◌, refl, true, false, List, [], ◌∷◌, arith, replicate, map, ltb, pos,
}
use sysops.Life.{
  Grids, Thread, is_alive, is_set, count_neighbours, count_neighbour, update_grid, thread_args,
  create_from, create_threads, signal_all, init_grid,
}
use sysops.Life.Drawing.{block, space, draw_row}
use sysops.Life.Rules.{rule, live_neighbours, is_alive-rule}
use sysops.Life.Threads.{signal_all-update_grid}
use sysops.Life.Race.{race, enter, AllEnded, race-update_grid}
use sysops.Life.Frames.{twice, every_other}
use sysops.Life.Screen.{Screen, overlay}
use sysops.Life.Start.{
  Setup, main, shown, all_created, thread_loop, wait_fails, other_signal, usage, create_failed,
  main-every_other,
}

-- Three live cells in the first row, and nothing else.
abbrev blinker : List ℕ
blinker = 1 ∷ 1 ∷ 1 ∷ replicate 897 0

abbrev cleared : List ℕ
cleared = replicate 900 0

abbrev start : Grids
start = record { foreground = blinker; background = cleared }

abbrev seven : List Thread
seven = create_from 7 7 0

blinker_turns :
    (is_alive 0 1 blinker ≡ true) × (is_alive 1 1 blinker ≡ true) × (is_alive 0 0 blinker ≡ false)
unfolding is_alive count_neighbours count_neighbour
blinker_turns = (refl, refl, refl)

ranges_of_seven : thread_args 7 3 ≡ record { swapped = false; start = 385; end = 514 }
unfolding thread_args
ranges_of_seven = refl

is_alive-rule_example :
    is_alive 1 1 blinker ≡ rule (is_set blinker 31) (live_neighbours 1 1 blinker)
is_alive-rule_example = is_alive-rule 1 1 blinker (omega arith) (omega arith)

-- Two threads that take turns.
alternate : ℕ → List ℕ
alternate zero = []
alternate (suc k) = 1 ∷ 0 ∷ alternate k

abbrev pair : List Thread
pair = create_from 2 2 0

both_end : AllEnded (race blinker (alternate 450) (map enter pair) cleared).1
unfolding race create_from thread_args alternate
both_end = (omega arith, (omega arith, tt))

race-update_grid_example :
    (race blinker (alternate 450) (map enter pair) cleared).0 ≡ update_grid blinker cleared
unfolding create_threads
race-update_grid_example =
    race-update_grid 2 pair (alternate 450) blinker cleared refl refl both_end

signal_all-update_grid_example :
    signal_all seven start ≡ record start { background = update_grid blinker cleared }
unfolding create_threads
signal_all-update_grid_example = signal_all-update_grid 7 seven start refl

abbrev set_up : Setup
set_up = record {
  argc = 2;
  argument = pos 7;
  rands = replicate 900 4;
  garbage = replicate 900 9;
  creates = λ i. true;
}

abbrev empty_screen : Screen
empty_screen r c = space

main-every_other_example :
    shown (main set_up (twice 3)) empty_screen
    ≡ map (λ g. overlay g empty_screen) (every_other 3 (init_grid (replicate 900 4)))
unfolding create_threads all_created
main-every_other_example =
    main-every_other set_up 7 3 seven empty_screen refl refl refl refl refl refl

-- A signal that is not SIGUSR1, and a `sigwait` that fails, are passed over.
waits_on :
    thread_loop (thread_args 7 3) (wait_fails ∷ other_signal ∷ []) start ≡ (thread_args 7 3, start)
unfolding thread_loop
waits_on = refl

no_argument : main (record set_up { argc = 1 }) 5 ≡ usage
unfolding main
no_argument = refl

no_sixth_thread : main (record set_up { creates = λ i. ltb i 5 }) 5 ≡ create_failed
unfolding main create_threads all_created
no_sixth_thread = refl

init_grid_runs : init_grid (4 ∷ 7 ∷ 0 ∷ []) ≡ 1 ∷ 0 ∷ 1 ∷ []
unfolding init_grid
init_grid_runs = refl

-- Two cells of the blinker, each two characters wide.
draws : draw_row blinker 0 2 2 ≡ (
    record { row = 0; column = 4; glyph = block }
    ∷ record { row = 0; column = 5; glyph = space }
    ∷ record { row = 0; column = 6; glyph = space }
    ∷ record { row = 0; column = 7; glyph = space }
    ∷ [])
unfolding draw_row
draws = refl
