-- ===== src/Life/Threads.antt =====
-- The threads of cw09/life.c: their ranges tile the grid, so one signal to all computes one
-- generation.
use sysops.Common.{
  loop, loop-add, ℕ, zero, suc, ◌+◌, ◌-◌, ◌*◌, ◌/◌, ◌≤◌, ◌<◌, ◌≡◌, refl, ◌∙◌, ap, sym, Bool, true,
  false, not, ◌==◌, List, [], ◌∷◌, map, some, pos, arith, inl, inr, Bool-cases,
}
use native.Mathlib.Nat.{
  zero-div, div-mul-le_self, le-div_iff_mul-le, mul-div_right, div-le_of_le-mul,
}
use sysops.Life.{
  update_cell, update_grid, update_subgrid, cell_count, Grids, Thread, swap, compute_part_of_grid,
  thread_args, create_from, create_threads, signal_all,
}
use sysops.Life.Writes.{update_grid-update_subgrid}

-- The first cell of thread `i` of `n`.
abbrev pub first_cell : ℕ → ℕ → ℕ
first_cell n i = i * cell_count / n

first_cell_mono : (n i : ℕ) → 0 < n → first_cell n i ≤ first_cell n (suc i)
first_cell_mono n i h = (le-div_iff_mul-le h).1 (omega (arith, div-mul-le_self (i * cell_count) n))

pub first_cell_end : (n : ℕ) → 0 < n → first_cell n n ≡ cell_count
first_cell_end n h = mul-div_right cell_count h

first_cell_le : (n i : ℕ) → 0 < n → i ≤ n → first_cell n i ≤ cell_count
first_cell_le n i h k = div-le_of_le-mul n (omega arith)

pub thread_end : (n i : ℕ) → i < n → (thread_args n i).end ≡ first_cell n (suc i)
unfolding thread_args
thread_end n i h = elim (Bool-cases (i == n - 1)) [
  | inl last ↦
      rw last (sym (ap (first_cell n) (reach (ground arith)) ∙ first_cell_end n (omega arith)))
  | inr inner ↦ rw inner (ap (first_cell n) one_more)
]
  where
    reach : i ≡ n - 1 → suc i ≡ n
    reach e = omega arith

    one_more : i + 1 ≡ suc i
    one_more = omega arith

-- The same threads, with their pointers exchanged or not.
abbrev pub turn : Bool → Thread → Thread
turn b t = record t { swapped = b }

abbrev pub turn_all : Bool → List Thread → List Thread
turn_all b = map (turn b)

pub swap-turn_all : (b : Bool) (ts : List Thread) → map swap (turn_all b ts) ≡ turn_all (not b) ts
swap-turn_all b [] = refl
swap-turn_all b (t ∷ ts) = ap (λ r. turn (not b) t ∷ r) (swap-turn_all b ts)

pub turn_all-create_from :
    (n rest i : ℕ) → turn_all false (create_from n rest i) ≡ create_from n rest i
unfolding create_from
turn_all-create_from n zero i = refl
turn_all-create_from n (suc rest) i =
    ap (λ r. thread_args n i ∷ r) (turn_all-create_from n rest (suc i))

-- What the threads from `i` on do to the two grids.
abbrev sweep : Bool → ℕ → Grids → Grids
sweep true first g = record g {
  foreground = loop (cell_count - first) first (update_cell g.background) g.foreground;
}
sweep false first g = record g {
  background = loop (cell_count - first) first (update_cell g.foreground) g.background;
}

abbrev work : Bool → ℕ → ℕ → Grids → Grids
work true start end g = record g { foreground = update_subgrid g.background start end g.foreground }
work false start end g = record g {
  background = update_subgrid g.foreground start end g.background;
}

compute_part-work :
    (b : Bool) (t : Thread) (g : Grids) → compute_part_of_grid (turn b t) g ≡ work b t.start t.end g
unfolding compute_part_of_grid
compute_part-work true t g = refl
compute_part-work false t g = refl

two_loops :
    (src dst : List ℕ) (start end : ℕ)
    → start ≤ end
    → end ≤ cell_count
    → loop (cell_count - end) end (update_cell src) (update_subgrid src start end dst)
      ≡ loop (cell_count - start) start (update_cell src) dst
unfolding update_subgrid
two_loops src dst start end h k =
    loop-add (end - start) (cell_count - end) end start (update_cell src) dst (omega arith)
    ∙ ap (λ n. loop n start (update_cell src) dst) lengths
  where
    lengths : end - start + (cell_count - end) ≡ cell_count - start
    lengths = omega arith

sweep-work :
    (b : Bool) (start end : ℕ) (g : Grids)
    → start ≤ end
    → end ≤ cell_count
    → sweep b end (work b start end g) ≡ sweep b start g
sweep-work true start end g h k =
    λ t. record g { foreground = two_loops g.background g.foreground start end h k t }
sweep-work false start end g h k =
    λ t. record g { background = two_loops g.foreground g.background start end h k t }

sweep-end : (b : Bool) (g : Grids) → sweep b cell_count g ≡ g
unfolding loop
sweep-end true g = refl
sweep-end false g = refl

signal_from :
    (b : Bool) (n rest i : ℕ) (g : Grids)
    → 0 < n
    → i + rest ≡ n
    → signal_all (turn_all b (create_from n rest i)) g ≡ sweep b (first_cell n i) g
unfolding signal_all create_from
signal_from b n zero i g h e = sym (ap (λ f. sweep b f g) all_done ∙ sweep-end b g)
  where
    last : i ≡ n
    last = omega arith

    all_done : first_cell n i ≡ cell_count
    all_done = ap (first_cell n) last ∙ first_cell_end n h
signal_from b n (suc rest) i g h e =
    signal_from b n rest (suc i) (compute_part_of_grid (turn b t) g) h (omega arith)
    ∙ ap (sweep b (first_cell n (suc i))) (compute_part-work b t g ∙ same_work)
    ∙ sweep-work b (first_cell n i) (first_cell n (suc i)) g (first_cell_mono n i h)
        (first_cell_le n (suc i) h (omega arith))
  where
    t : Thread
    t = thread_args n i

    same_work : work b t.start t.end g ≡ work b (first_cell n i) (first_cell n (suc i)) g
    same_work = ap (λ k. work b (first_cell n i) k g) (thread_end n i (omega arith))

abbrev pub generation : Bool → Grids → Grids
generation true g = record g { foreground = update_grid g.background g.foreground }
generation false g = record g { background = update_grid g.foreground g.background }

sweep-generation : (b : Bool) (g : Grids) → sweep b 0 g ≡ generation b g
unfolding update_subgrid
sweep-generation true g =
    λ t. record g { foreground = sym (update_grid-update_subgrid g.background g.foreground) t }
sweep-generation false g =
    λ t. record g { background = sym (update_grid-update_subgrid g.foreground g.background) t }

pub signal_all-generation :
    (b : Bool) (n : ℕ) (g : Grids)
    → 0 < n
    → signal_all (turn_all b (create_from n n 0)) g ≡ generation b g
signal_all-generation b n g h =
    signal_from b n n 0 g h (omega arith) ∙ ap (λ k. sweep b k g) none_before ∙ sweep-generation b g
  where
    none_before : first_cell n 0 ≡ 0
    none_before = zero-div n

pub created :
    (n : ℕ) (ts : List Thread)
    → create_threads (pos n) ≡ some ts
    → (0 < n) × (turn_all false (create_from n n 0) ≡ ts)
unfolding create_threads
created n ts made = ground (arith, turn_all-create_from n n 0)

-- For every accepted number of threads, one signal to all threads makes the background the next
-- generation of the foreground, exactly as the sequential `update_grid` would, and leaves the
-- foreground alone.
pub signal_all-update_grid :
    (n : ℕ) (ts : List Thread) (g : Grids)
    → create_threads (pos n) ≡ some ts
    → signal_all ts g ≡ record g { background = update_grid g.foreground g.background }
signal_all-update_grid n ts g made =
    ap (λ r. signal_all r g) (sym (created n ts made).1)
    ∙ signal_all-generation false n g (created n ts made).0
