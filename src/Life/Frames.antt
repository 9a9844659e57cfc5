-- ===== src/Life/Frames.antt =====
-- What the loop of `main` in cw09/life.c shows of the game.
use sysops.Common.{
  ℕ, zero, suc, ◌<◌, ◌≡◌, refl, ◌∙◌, ap, sym, Bool, true, false, List, [], ◌∷◌, some, pos, length,
  replicate,
}
use sysops.Life.{cell_count, Grids, Thread, update_grid, create_from, create_threads, frames}
use sysops.Life.Writes.{update_grid_any, length-update_grid}
use sysops.Life.Threads.{turn_all, swap-turn_all, signal_all-generation, created}

-- The next generation, by the sequential `update_grid` into a cleared grid.
unfoldable pub next : List ℕ → List ℕ
next grid = update_grid grid (replicate cell_count 0)

-- Two turns of the loop for each generation that is shown.
unfoldable pub twice : ℕ → ℕ
twice zero = 0
twice (suc n) = suc (suc (twice n))

-- Each grid twice, and then the one two generations later.
unfoldable pub every_other : ℕ → List ℕ → List (List ℕ)
every_other zero grid = []
every_other (suc n) grid = grid ∷ grid ∷ every_other n (next (next grid))

module _ (n : ℕ) (h : 0 < n) where
  abbrev crew : Bool → List Thread
  crew b = turn_all b (create_from n n 0)

  crew-frames :
      (k : ℕ) (g : Grids)
      → length g.foreground ≡ cell_count
      → length g.background ≡ cell_count
      → frames (twice k) (crew false) g ≡ every_other k g.foreground
  unfolding frames twice every_other next
  crew-frames zero g f b = refl
  crew-frames (suc k) g f b =
      rw
        (
          swap-turn_all false (create_from n n 0),
          swap-turn_all true (create_from n n 0),
          signal_all-generation false n g h,
          signal_all-generation true n after h,
          step_one,
          step_two,
        )
        (ap (λ r. g.foreground ∷ g.foreground ∷ r)
          (crew-frames k
            (record { foreground = next (next g.foreground); background = next g.foreground })
            (length-update_grid _ _ ∙ refl) (length-update_grid _ _ ∙ refl)))
    where
      after : Grids
      after = record g { background = update_grid g.foreground g.background }

      step_one : update_grid g.foreground g.background ≡ next g.foreground
      step_one = update_grid_any g.foreground g.background (replicate cell_count 0) b refl

      step_two : update_grid (next g.foreground) g.foreground ≡ next (next g.foreground)
      step_two = update_grid_any (next g.foreground) g.foreground (replicate cell_count 0) f refl

-- Started with the foreground at some generation, `main` shows each generation of even distance
-- from it twice, in order, and never one of odd distance: the threads exchange their own pointers,
-- and `draw_grid` is always called on the same one of the two grids.
pub frames-every_other :
    (n k : ℕ) (ts : List Thread) (g : Grids)
    → create_threads (pos n) ≡ some ts
    → length g.foreground ≡ cell_count
    → length g.background ≡ cell_count
    → frames (twice k) ts g ≡ every_other k g.foreground
frames-every_other n k ts g made f b =
    ap (λ r. frames (twice k) r g) (sym (created n ts made).1)
    ∙ crew-frames n (created n ts made).0 k g f b
