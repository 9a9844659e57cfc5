-- ===== src/Integral.antt =====
-- cw06/zad1/main.c: an integral by rectangles, split among processes that send their parts through
-- pipes. A double stands as a parameter with the operations that the code uses.
pub mod Shares
pub mod Exact
pub mod Lost
mod Tests
use sysops.Common.{
  loop, ℕ, zero, suc, ◌+◌, ◌-◌, ◌*◌, ◌/◌, ◌%◌, ◌==◌, Bool, true, false, if◌then◌else◌, ltb, Option,
  none, some, ℤ, pos, negsuc,
}

-- Doubles. `is_positive x` is `!(x <= 0)`, and `ceil_of x` is `(long) ceil(x)`.
pub record Doubles {ℓ} (W : Type ℓ) : Type ℓ where
  pub of_long : ℕ → W
  pub add : W → W → W
  pub sub : W → W → W
  pub mul : W → W → W
  pub div : W → W → W
  pub is_positive : W → Bool
  pub ceil_of : W → ℕ

-- What becomes of a child: `fork` fails, its `write` fails, or its result is in the pipe.
pub data Child : Type 0 where
  not_forked not_written written : Child

abbrev pub is_forked : Child → Bool
is_forked not_forked = false
is_forked _ = true

-- What the system does for each process: whether `pipe` and the parent's `read` work, and the
-- child.
pub record Processes : Type 0 where
  pub opens : ℕ → Bool
  pub reads : ℕ → Bool
  pub child : ℕ → Child

-- How `main` ends, with the sum that it prints.
pub data Outcome {ℓ} (W : Type ℓ) : Type ℓ where
  bad_arguments no_pipe not_distributed not_read : Outcome W
  result : W → Outcome W

-- The rectangle with which child `i` begins, and how many it takes.
abbrev pub child_first : ℕ → ℕ → ℕ → ℕ
child_first n_processes n_intervals i =
    let steps_per_process = n_intervals / n_processes in i * steps_per_process

abbrev pub child_steps : ℕ → ℕ → ℕ → ℕ
child_steps n_processes n_intervals i =
    let steps_per_process = n_intervals / n_processes in
    if i == n_processes - 1
    then steps_per_process + n_intervals % n_processes
    else steps_per_process

module _ {ℓ} {W : Type ℓ} (d : Doubles W) where
  open d use {of_long, add, sub, mul, div, is_positive, ceil_of}

  abbrev pub range_start : W
  range_start = of_long 0

  abbrev pub range_stop : W
  range_stop = of_long 1

  -- The body of the loop of `calculate_part`, at `x`.
  abbrev pub add_area : W → W → W → W
  add_area dx x area = add area (mul (div (of_long 4) (add (mul x x) (of_long 1))) dx)

  unfoldable pub calculate_part : W → W → ℕ → W
  unfolding loop
  calculate_part start dx steps =
      loop steps 0 (λ i area. add_area dx (add start (mul (of_long i) dx)) area) (of_long 0)

  -- What child `i` of `distribute_calculations` computes.
  unfoldable pub child_result : ℕ → ℕ → W → ℕ → W
  unfolding calculate_part
  child_result n_processes n_intervals dx i =
      calculate_part (add range_start (mul (of_long (child_first n_processes n_intervals i)) dx)) dx
        (child_steps n_processes n_intervals i)

  -- The loop of `distribute_calculations` in the parent, from process `i` on, `rest` of them:
  -- whether it returns 0.
  unfoldable pub distribute_calculations : Processes → ℕ → ℕ → Bool
  distribute_calculations p zero i = true
  distribute_calculations p (suc rest) i =
      let more = distribute_calculations p rest (i + 1) in
      if is_forked (p.child i) then more else false

  -- What the parent has in `result` after it has read pipe `i`: a pipe that is empty and closed
  -- leaves the 0 in it.
  abbrev pub read_from : Child → W → W
  read_from written value = value
  read_from _ value = of_long 0

  -- The loop of `main` that reads and adds, from process `i` on.
  unfoldable pub add_results : Processes → (ℕ → W) → ℕ → ℕ → W → Option W
  add_results p value zero i sum = some sum
  add_results p value (suc rest) i sum =
      let more = add_results p value rest (i + 1) (add sum (read_from (p.child i) (value i))) in
      if p.reads i then more else none

  -- The loop of `main` that opens the pipes.
  unfoldable pub open_pipes : Processes → ℕ → ℕ → Bool
  open_pipes p zero i = true
  open_pipes p (suc rest) i =
      let more = open_pipes p rest (i + 1) in if p.opens i then more else false

  abbrev pub printed : Option W → Outcome W
  printed none = not_read
  printed (some sum) = result sum

  -- `main` behind its checks.
  unfoldable pub integrate : Processes → ℕ → ℕ → W → Outcome W
  unfolding open_pipes distribute_calculations add_results child_result
  integrate p n_processes n_intervals dx =
      if open_pipes p n_processes 0
      then (if distribute_calculations p n_processes 0
          then printed
              (add_results p (child_result n_processes n_intervals dx) n_processes 0 (of_long 0))
          else not_distributed)
      else no_pipe

  unfoldable pub main : Processes → W → ℤ → Outcome W
  unfolding integrate
  main p dx (negsuc n) = bad_arguments
  main p dx (pos n_processes) =
      let n_intervals = ceil_of (div (sub range_stop range_start) dx) in
      if n_processes == 0
      then bad_arguments
      else if is_positive dx
      then (if ltb n_intervals n_processes
          then bad_arguments
          else integrate p n_processes n_intervals dx)
      else bad_arguments

-- `write_time_to_file`, by whether `fopen`, `fprintf` and `fclose` work: whether it returns 0.
unfoldable pub write_time_to_file : Bool → Bool → Bool → Bool
write_time_to_file opened written_out closed =
    if opened then (if written_out then closed else false) else false
