-- ===== src/Life/Drawing.antt =====
-- `draw_grid` of cw09/grid.c: what it prints where.
use sysops.Common.{ℕ, zero, suc, ◌+◌, ◌*◌, if◌then◌else◌, List, [], ◌∷◌, ◌++◌}
use sysops.Life.{grid_width, grid_height, is_set}

pub data Glyph : Type 0 where
  block space : Glyph

-- A call of `mvprintw`: row, column, and what is printed.
pub record Print : Type 0 where
  pub row : ℕ
  pub column : ℕ
  pub glyph : Glyph

-- The body of the inner loop.
abbrev pub draw_cell : List ℕ → ℕ → ℕ → List Print
draw_cell grid i j =
    record {
      row = i;
      column = j * 2;
      glyph = if is_set grid (i * grid_width + j) then block else space;
    }
    ∷ record { row = i; column = j * 2 + 1; glyph = space }
    ∷ []

-- The inner loop, from column `j` of the grid on.
unfoldable pub draw_row : List ℕ → ℕ → ℕ → ℕ → List Print
draw_row grid i j zero = []
draw_row grid i j (suc rest) = draw_cell grid i j ++ draw_row grid i (j + 1) rest

-- The outer loop, from row `i` on.
unfoldable pub draw_rows : List ℕ → ℕ → ℕ → List Print
unfolding draw_row
draw_rows grid i zero = []
draw_rows grid i (suc rest) = draw_row grid i 0 grid_width ++ draw_rows grid (i + 1) rest

unfoldable pub draw_grid : List ℕ → List Print
unfolding draw_rows
draw_grid grid = draw_rows grid 0 grid_height
