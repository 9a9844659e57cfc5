-- ===== src/Life.antt =====
-- cw09: Conway's game of life on a grid of 30 by 30 (grid.h, grid.c), computed by threads that each
-- own a range of cells (life.c).
pub mod Rules
pub mod Writes
pub mod Threads
pub mod Race
pub mod Frames
pub mod Drawing
pub mod Screen
pub mod Start
mod Tests
use sysops.Common.{
  loop, ℕ, zero, suc, ◌+◌, ◌-◌, ◌*◌, ◌/◌, ◌%◌, Bool, true, false, ◌&&◌, ◌||◌, not, if◌then◌else◌,
  ◌==◌, ltb, leb, Option, none, some, List, [], ◌∷◌, map, ℤ, pos, negsuc, get_or, set,
}

abbrev pub grid_width : ℕ
grid_width = 30

abbrev pub grid_height : ℕ
grid_height = 30

abbrev pub cell_count : ℕ
cell_count = grid_width * grid_height

-- `if (grid[k])`: a char is 1 for a live cell.
abbrev pub is_set : List ℕ → ℕ → Bool
is_set grid k = not (get_or grid k 0 == 0)

-- The body of the inner loop of `is_alive`. The loops run from -1 to 1: `i` and `j` here are one
-- more, and so are `r` and `c`.
unfoldable pub count_neighbour : ℕ → ℕ → List ℕ → ℕ → ℕ → ℕ → ℕ
count_neighbour row col grid i j count =
    let r = row + i in
    let c = col + j in
    if i == 1 && j == 1
    then count
    else if ltb r 1 || leb (grid_height + 1) r || ltb c 1 || leb (grid_width + 1) c
    then count
    else if is_set grid (grid_width * (r - 1) + (c - 1))
    then count + 1
    else count

unfoldable pub count_neighbours : ℕ → ℕ → List ℕ → ℕ
unfolding loop
count_neighbours row col grid =
    loop 3 0 (λ i count. loop 3 0 (λ j count. count_neighbour row col grid i j count) count) 0

unfoldable pub is_alive : ℕ → ℕ → List ℕ → Bool
is_alive row col grid =
    let count = count_neighbours row col grid in
    if is_set grid (row * grid_width + col)
    then (if count == 2 || count == 3 then true else false)
    else (if count == 3 then true else false)

-- A `bool` that is stored into a char.
abbrev pub to_char : Bool → ℕ
to_char true = 1
to_char false = 0

-- The two loops of `update_grid`.
unfoldable pub update_grid : List ℕ → List ℕ → List ℕ
unfolding loop
update_grid src dst =
    loop grid_height 0
      (λ i dst.
        loop grid_width 0 (λ j dst. set dst (i * grid_width + j) (to_char (is_alive i j src))) dst)
      dst

-- The body of the loop of `update_subgrid`: one cell.
unfoldable pub update_cell : List ℕ → ℕ → List ℕ → List ℕ
update_cell src i dst = set dst i (to_char (is_alive (i / grid_width) (i % grid_width) src))

unfoldable pub update_subgrid : List ℕ → ℕ → ℕ → List ℕ → List ℕ
unfolding loop
update_subgrid src start end dst = loop (end - start) start (update_cell src) dst

-- `init_grid`, with the numbers that `rand` returns.
unfoldable pub init_grid : List ℕ → List ℕ
init_grid rands = map (λ x. if x % 2 == 0 then 1 else 0) rands

-- The two grids of `main`, by the names that `main` has for them.
pub record Grids : Type 0 where
  pub foreground : List ℕ
  pub background : List ℕ

-- `thread_args_t`; `swapped` says that the two pointers of the thread are exchanged.
pub record Thread : Type 0 where
  pub swapped : Bool
  pub start : ℕ
  pub end : ℕ

-- One turn of the loop of `compute_part_of_grid`, on SIGUSR1.
unfoldable pub compute_part_of_grid : Thread → Grids → Grids
unfolding update_subgrid
compute_part_of_grid t g =
    if t.swapped
    then record g { foreground = update_subgrid g.background t.start t.end g.foreground }
    else record g { background = update_subgrid g.foreground t.start t.end g.background }

abbrev pub swap : Thread → Thread
swap t = record t { swapped = not t.swapped }

-- The arguments of thread `i` of `n`.
unfoldable pub thread_args : ℕ → ℕ → Thread
thread_args n i = record {
  swapped = false;
  start = i * cell_count / n;
  end = if i == n - 1 then cell_count else (i + 1) * cell_count / n;
}

-- The threads from `i` on, `rest` of them.
unfoldable pub create_from : ℕ → ℕ → ℕ → List Thread
unfolding thread_args
create_from n zero i = []
create_from n (suc rest) i = thread_args n i ∷ create_from n rest (suc i)

-- The check of `n_threads` in `main`, and its first loop.
unfoldable pub create_threads : ℤ → Option (List Thread)
unfolding create_from
create_threads (negsuc k) = none
create_threads (pos n) = if ltb n 1 || ltb cell_count n then none else some (create_from n n 0)

-- A signal to all threads, handled by each before the next signal.
unfoldable pub signal_all : List Thread → Grids → Grids
unfolding compute_part_of_grid
signal_all [] g = g
signal_all (t ∷ ts) g = signal_all ts (compute_part_of_grid t g)

-- What `draw_grid` shows in the first `rounds` turns of the loop of `main`.
unfoldable pub frames : ℕ → List Thread → Grids → List (List ℕ)
unfolding signal_all
frames zero ts g = []
frames (suc rounds) ts g = g.foreground ∷ frames rounds (map swap ts) (signal_all ts g)
