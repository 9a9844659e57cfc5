-- ===== src/Life/Race.antt =====
-- The threads of cw09/life.c at work on one generation at the same time, a cell at a time.
use sysops.Common.{
  ℕ, zero, suc, ◌+◌, ◌≤◌, ◌<◌, ◌≡◌, ltb, refl, ◌∙◌, ap, sym, true, Bool-cases, inl, inr,
  if◌then◌else◌, Option, none, some, pos, List, [], ◌∷◌, map, length, arith, dec_lt,
}
use mathlib.Core.Path.{subst}
use native.Mathlib.Nat.{zero-div}
use sysops.Life.{
  update_cell, update_grid, cell_count, Thread, thread_args, create_from, create_threads,
}
use sysops.Life.Writes.{update_cells, occurs, update_cells-update_grid}
use sysops.Life.Threads.{first_cell, first_cell_end, thread_end, turn_all-create_from, created}

-- The loop of `update_subgrid` in a thread, in front of its test.
pub record Loop : Type 0 where
  pub next : ℕ
  pub end : ℕ

abbrev pub enter : Thread → Loop
enter t = record { next = t.start; end = t.end }

-- One turn of the loop of thread `i`: the cell that it computes. `none`: its loop has ended, or
-- there is no such thread.
unfoldable pub advance : ℕ → List Loop → Option (ℕ × List Loop)
advance i [] = none
advance zero (l ∷ ls) =
    if ltb l.next l.end then some (l.next, record l { next = l.next + 1 } ∷ ls) else none
advance (suc i) (l ∷ ls) = elim (advance i ls) [
  | none ↦ none
  | some (cell, ms) ↦ some (cell, l ∷ ms)
]

-- The threads take turns in this order: the grid that they write, and their loops.
unfoldable pub race : List ℕ → List ℕ → List Loop → List ℕ → List ℕ × List Loop
unfolding advance
race src [] ls dst = (dst, ls)
race src (i ∷ turns) ls dst = elim (advance i ls) [
  | none ↦ race src turns ls dst
  | some (cell, ms) ↦ race src turns ms (update_cell src cell dst)
]

-- All loops have ended.
abbrev pub AllEnded : List Loop → Type 0
AllEnded [] = Unit {0}
AllEnded (l ∷ ls) = (l.end ≤ l.next) × AllEnded ls

-- Between two states of the loops these cells are computed, and maybe others.
abbrev Between : List ℕ → List Loop → List Loop → Type 0
Between cells [] [] = Unit {0}
Between cells (l ∷ ls) (m ∷ ms) =
    (l.end ≡ m.end)
    × ((j : ℕ) → l.next ≤ j → j < m.next → occurs j cells ≡ true)
    × Between cells ls ms
Between cells ls ms = ⊥

Between-same : (cells : List ℕ) (ls : List Loop) → Between cells ls ls
Between-same cells [] = tt
Between-same cells (l ∷ ls) = (refl, (λ j h k. absurd (omega arith)), Between-same cells ls)

Between-more :
    (c : ℕ) (cells : List ℕ) (ls ms : List Loop) → Between cells ls ms → Between (c ∷ cells) ls ms
unfolding occurs
Between-more c cells [] [] b = tt
Between-more c cells (l ∷ ls) (m ∷ ms) (e, inside, b) =
    (e, (λ j h k. let o = inside j h k in ground arith), Between-more c cells ls ms b)
Between-more c cells [] (m ∷ ms) b = b
Between-more c cells (l ∷ ls) [] b = b

-- A turn in front of what follows.
abbrev Prepends : List ℕ → List Loop → List Loop → Option (ℕ × List Loop) → Type 0
Prepends cells ls fs none = Unit {0}
Prepends cells ls fs (some (c, ms)) = Between cells ms fs → Between (c ∷ cells) ls fs

one_turn :
    (l : Loop) (cells : List ℕ) (ls fs : List Loop)
    → Between cells (record l { next = l.next + 1 } ∷ ls) fs
    → Between (l.next ∷ cells) (l ∷ ls) fs
unfolding occurs
one_turn l cells ls [] b = b
one_turn l cells ls (f ∷ fs) (e, inside, b) = (
  e,
  λ j h k. elim (dec_lt l.next j) [
    | yes further ↦ let o = inside j (omega arith) k in ground arith
    | no now ↦ ground arith
  ],
  Between-more l.next cells ls fs b,
)

behind_one :
    (l : Loop) (cells : List ℕ) (ls : List Loop) (o : Option (ℕ × List Loop))
    → ((fs : List Loop) → Prepends cells ls fs o)
    → (fs : List Loop)
    → Prepends cells (l ∷ ls) fs (elim o [ none ↦ none | some (cell, ms) ↦ some (cell, l ∷ ms) ])
unfolding occurs
behind_one l cells ls none ih fs = tt
behind_one l cells ls (some (c, ms)) ih [] = λ b. b
behind_one l cells ls (some (c, ms)) ih (f ∷ fs) =
    λ b. (b.0, (λ j h k. let o = b.1 j h k in ground arith), ih fs b.2)

advance-Prepends :
    (i : ℕ) (cells : List ℕ) (ls fs : List Loop) → Prepends cells ls fs (advance i ls)
unfolding advance
advance-Prepends i cells [] fs = tt
advance-Prepends zero cells (l ∷ ls) fs = elim (Bool-cases (ltb l.next l.end)) [
  | inl more ↦ rw more (one_turn l cells ls fs)
  | inr ended ↦ rw ended tt
]
advance-Prepends (suc i) cells (l ∷ ls) fs =
    behind_one l cells ls (advance i ls) (advance-Prepends i cells ls) fs

-- What a race computes.
record Traced (src dst : List ℕ) (ls : List Loop) (last : List ℕ × List Loop) : Type 0 where
  cells : List ℕ
  grid : last.0 ≡ update_cells src cells dst
  between : Between cells ls last.1

one-Traced :
    (src dst : List ℕ) (i : ℕ) (ls : List Loop) (o : Option (ℕ × List Loop)) (turns : List ℕ)
    → advance i ls ≡ o
    → ((ms : List Loop) (e : List ℕ) → Traced src e ms (race src turns ms e))
    → Traced src dst ls (elim o [
      | none ↦ race src turns ls dst
      | some (cell, ms) ↦ race src turns ms (update_cell src cell dst)
    ])
unfolding update_cells
one-Traced src dst i ls none turns e ih = ih ls dst
one-Traced src dst i ls (some (c, ms)) turns e ih =
    let r = ih ms (update_cell src c dst) in
    record {
      cells = c ∷ r.cells;
      grid = r.grid;
      between =
          subst (Prepends r.cells ls (race src turns ms (update_cell src c dst)).1) e
            (advance-Prepends i r.cells ls (race src turns ms (update_cell src c dst)).1) r.between;
    }

race-Traced :
    (src turns : List ℕ) (ls : List Loop) (dst : List ℕ) → Traced src dst ls (race src turns ls dst)
unfolding race update_cells
race-Traced src [] ls dst = record { cells = []; grid = refl; between = Between-same [] ls }
race-Traced src (i ∷ turns) ls dst =
    one-Traced src dst i ls (advance i ls) turns refl (race-Traced src turns)

-- The ranges of the threads from `i` on.
all_computed :
    (n rest i j : ℕ) (cells : List ℕ) (fs : List Loop)
    → 0 < n
    → i + rest ≡ n
    → Between cells (map enter (create_from n rest i)) fs
    → AllEnded fs
    → first_cell n i ≤ j
    → j < cell_count
    → occurs j cells ≡ true
unfolding create_from thread_args
all_computed n zero i j cells fs h e b ended from to =
    let last : i ≡ n = omega arith in
    absurd (omega (arith, ap (first_cell n) last, first_cell_end n h))
all_computed n (suc rest) i j cells [] h e b ended from to = absurd b
all_computed n (suc rest) i j cells (f ∷ fs) h e b ended from to =
    elim (dec_lt j (first_cell n (suc i))) [
      | yes mine ↦ b.1 j from (omega (arith, thread_end n i (omega arith), b.0, ended.0))
      | no later ↦
          all_computed n rest (suc i) j cells fs h (omega arith) b.2 ended.1 (omega arith) to
    ]

-- The race of the threads is harmless: for every accepted number of threads that compute one
-- generation at the same time, in any order of the single turns of their loops, once all loops have
-- ended the target is what the sequential `update_grid` makes of it.
pub race-update_grid :
    (n : ℕ) (ts : List Thread) (turns src dst : List ℕ)
    → create_threads (pos n) ≡ some ts
    → length dst ≡ cell_count
    → AllEnded (race src turns (map enter ts) dst).1
    → (race src turns (map enter ts) dst).0 ≡ update_grid src dst
race-update_grid n ts turns src dst made size ended =
    let r = race-Traced src turns (map enter ts) dst in
    let same : create_from n n 0 ≡ ts = sym (turn_all-create_from n n 0) ∙ (created n ts made).1 in
    let between =
      subst (λ us. Between r.cells (map enter us) (race src turns (map enter ts) dst).1) (sym same)
        r.between in
    r.grid
    ∙ update_cells-update_grid src r.cells dst size (λ j to.
      all_computed n n 0 j r.cells (race src turns (map enter ts) dst).1 (created n ts made).0
        (omega arith) between ended (omega (arith, zero-div n)) to)
