-- ===== src/Life/Start.antt =====
-- `main` of cw09/life.c from its start, and a thread on whatever `sigwait` gives it.
use sysops.Common.{
  refl, ℕ, suc, replicate, ◌+◌, ◌≡◌, ◌==◌, Bool, true, ◌&&◌, if◌then◌else◌, ◌∙◌, ap, Option, none,
  some, List, [], ◌∷◌, ℤ, pos, length, length-map, map,
}
use sysops.Life.{
  cell_count, init_grid, Grids, Thread, compute_part_of_grid, swap, create_threads, frames,
}
use sysops.Life.Frames.{twice, every_other, frames-every_other}
use sysops.Life.Screen.{Screen, screens, overlay, screens-overlay}

-- What `sigwait` gives: an error, a signal that is not SIGUSR1, or SIGUSR1.
pub data Wait : Type 0 where
  wait_fails other_signal usr1 : Wait

-- The loop of `compute_part_of_grid`.
unfoldable pub thread_loop : Thread → List Wait → Grids → Thread × Grids
unfolding compute_part_of_grid
thread_loop t [] g = (t, g)
thread_loop t (wait_fails ∷ ws) g = thread_loop t ws g
thread_loop t (other_signal ∷ ws) g = thread_loop t ws g
thread_loop t (usr1 ∷ ws) g = thread_loop (swap t) ws (compute_part_of_grid t g)

-- The turns of a thread: one for each SIGUSR1.
abbrev turns : List Wait → ℕ
turns [] = 0
turns (wait_fails ∷ ws) = turns ws
turns (other_signal ∷ ws) = turns ws
turns (usr1 ∷ ws) = suc (turns ws)

thread_loop-turns :
    (t : Thread) (ws : List Wait) (g : Grids)
    → thread_loop t ws g ≡ thread_loop t (replicate (turns ws) usr1) g
unfolding thread_loop
thread_loop-turns t [] g = refl
thread_loop-turns t (wait_fails ∷ ws) g = thread_loop-turns t ws g
thread_loop-turns t (other_signal ∷ ws) g = thread_loop-turns t ws g
thread_loop-turns t (usr1 ∷ ws) g = thread_loop-turns (swap t) ws (compute_part_of_grid t g)

-- `compute_part_of_grid` from its start; `none`: `pthread_sigmask` fails, and the process ends.
unfoldable pub thread_main : Bool → Thread → List Wait → Grids → Option (Thread × Grids)
unfolding thread_loop
thread_main masks t ws g = if masks then some (thread_loop t ws g) else none

-- What `main` finds: `argc`, what `strtol` makes of the argument, what `rand` returns, what
-- `malloc` leaves in the background, and which calls of `pthread_create` work.
pub record Setup : Type 0 where
  pub argc : ℕ
  pub argument : ℤ
  pub rands : List ℕ
  pub garbage : List ℕ
  pub creates : ℕ → Bool

pub data Outcome : Type 0 where
  usage invalid_number create_failed : Outcome
  draws : List (List ℕ) → Outcome

-- The threads from `i` on can be created.
unfoldable pub all_created : (ℕ → Bool) → List Thread → ℕ → Bool
all_created creates [] i = true
all_created creates (t ∷ ts) i = creates i && all_created creates ts (i + 1)

-- `main`, with the grids that it draws in so many turns of its endless loop.
unfoldable pub main : Setup → ℕ → Outcome
unfolding all_created
main s rounds =
    if s.argc == 2
    then (elim (create_threads s.argument) [
      | none ↦ invalid_number
      | some ts ↦
          if all_created s.creates ts 0
          then draws
              (frames rounds ts (record { foreground = init_grid s.rands; background = s.garbage }))
          else create_failed
    ])
    else usage

-- The screens that `main` shows.
unfoldable pub shown : Outcome → Screen → List Screen
shown (draws grids) s = screens grids s
shown o s = []

main_draws :
    (s : Setup) (n k : ℕ) (ts : List Thread)
    → s.argc ≡ 2
    → s.argument ≡ pos n
    → create_threads (pos n) ≡ some ts
    → all_created s.creates ts 0 ≡ true
    → length s.rands ≡ cell_count
    → length s.garbage ≡ cell_count
    → main s (twice k) ≡ draws (every_other k (init_grid s.rands))
unfolding main init_grid
main_draws s n k ts two number made works rands garbage =
    simp (two, number, made, works)
      (ap draws (
        frames-every_other n k ts
          (record { foreground = init_grid s.rands; background = s.garbage }) made
          (length-map s.rands _ ∙ rands) garbage))

-- `main` from its start, with one argument, a number of threads that is accepted and can be
-- created, and two grids of 900 cells: in the first turns of its loop the screen shows, one after
-- the other, the pictures of the generations of even distance from the random one, each twice,
-- and never one of odd distance. A picture has two columns for each cell, of which the first
-- shows a block exactly if the cell lives; nothing of an earlier picture is left, and the rest of
-- the screen stays as it is.
pub main-every_other :
    (s : Setup) (n k : ℕ) (ts : List Thread) (screen : Screen)
    → s.argc ≡ 2
    → s.argument ≡ pos n
    → create_threads (pos n) ≡ some ts
    → all_created s.creates ts 0 ≡ true
    → length s.rands ≡ cell_count
    → length s.garbage ≡ cell_count
    → shown (main s (twice k)) screen
      ≡ map (λ g. overlay g screen) (every_other k (init_grid s.rands))
unfolding shown
main-every_other s n k ts screen two number made works rands garbage =
    ap (λ o. shown o screen) (main_draws s n k ts two number made works rands garbage)
    ∙ screens-overlay (every_other k (init_grid s.rands)) screen
