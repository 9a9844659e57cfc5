-- ===== src/Life/Writes.antt =====
-- The cells that `update_grid` and `update_subgrid` of cw09/grid.c write, and the order of the
-- writes.
use sysops.Common.{
  loop, loop-add, get_or-set, list_ext, ℕ, zero, suc, ◌+◌, ◌-◌, ◌*◌, ◌/◌, ◌%◌, ◌≤◌, ◌<◌, ◌≡◌, refl,
  ◌∙◌, ap, sym, Bool, true, false, ◌||◌, ◌&&◌, leb, ltb, ◌==◌, if◌then◌else◌, List, [], ◌∷◌, get_or,
  set, length, length-set, arith,
}
use sysops.Life.{
  is_alive, to_char, update_grid, update_cell, update_subgrid, grid_width, grid_height, cell_count,
}

-- What a cell becomes.
abbrev pub next_cell : List ℕ → ℕ → ℕ
next_cell src i = to_char (is_alive (i / grid_width) (i % grid_width) src)

-- The updates of these cells, in this order.
unfoldable pub update_cells : List ℕ → List ℕ → List ℕ → List ℕ
update_cells src [] dst = dst
update_cells src (i ∷ cells) dst = update_cells src cells (update_cell src i dst)

unfoldable pub occurs : ℕ → List ℕ → Bool
occurs i [] = false
occurs i (x ∷ xs) = i == x || occurs i xs

length-update_cells : (src cells dst : List ℕ) → length (update_cells src cells dst) ≡ length dst
unfolding update_cells update_cell
length-update_cells src [] dst = refl
length-update_cells src (i ∷ cells) dst =
    length-update_cells src cells (update_cell src i dst) ∙ length-set dst i (next_cell src i)

get_or-update_cells :
    (src cells dst : List ℕ) (j d : ℕ)
    → j < length dst
    → get_or (update_cells src cells dst) j d
      ≡ (if occurs j cells then next_cell src j else get_or dst j d)
unfolding update_cells update_cell occurs
get_or-update_cells src [] dst j d h = refl
get_or-update_cells src (i ∷ cells) dst j d h = ground (
  arith,
  get_or-update_cells src cells (update_cell src i dst) j d,
  get_or-set dst i j (next_cell src i) d,
  length-set dst i (next_cell src i),
)

-- Two orders that both reach every cell give the same grid.
update_cells_order :
    (src cells others dst : List ℕ)
    → ((j : ℕ) → j < length dst → occurs j cells ≡ true)
    → ((j : ℕ) → j < length dst → occurs j others ≡ true)
    → update_cells src cells dst ≡ update_cells src others dst
update_cells_order src cells others dst h k =
    list_ext _ _ (length-update_cells src cells dst ∙ sym (length-update_cells src others dst))
      (λ j p. ground (
        arith,
        length-update_cells src cells dst,
        h j,
        k j,
        get_or-update_cells src cells dst j 0,
        get_or-update_cells src others dst j 0,
      ))

-- The cells from `first` on.
unfoldable pub cells_from : ℕ → ℕ → List ℕ
cells_from zero first = []
cells_from (suc n) first = first ∷ cells_from n (suc first)

pub loop-update_cell :
    (src : List ℕ) (n first : ℕ) (dst : List ℕ)
    → loop n first (update_cell src) dst ≡ update_cells src (cells_from n first) dst
unfolding loop update_cells cells_from
loop-update_cell src zero first dst = refl
loop-update_cell src (suc n) first dst =
    loop-update_cell src n (suc first) (update_cell src first dst)

pub occurs-cells_from :
    (j n first : ℕ) → first ≤ j → j < first + n → occurs j (cells_from n first) ≡ true
unfolding occurs cells_from
occurs-cells_from j zero first h k = absurd (omega arith)
occurs-cells_from j (suc n) first h k = ground (arith, occurs-cells_from j n (suc first))

occurs-cells_from_iff :
    (j n first : ℕ) → occurs j (cells_from n first) ≡ (leb first j && ltb j (first + n))
unfolding occurs cells_from
occurs-cells_from_iff j zero first = ground arith
occurs-cells_from_iff j (suc n) first = ground (arith, occurs-cells_from_iff j n (suc first))

occurs-range :
    (j start end : ℕ) → occurs j (cells_from (end - start) start) ≡ (leb start j && ltb j end)
occurs-range j start end = occurs-cells_from_iff j (end - start) start ∙ ground arith

-- The loop over a row in `update_grid`.
abbrev row_body : List ℕ → ℕ → ℕ → List ℕ → List ℕ
row_body src i j dst = set dst (i * grid_width + j) (to_char (is_alive i j src))

row-loop :
    (src : List ℕ) (i w j k : ℕ) (dst : List ℕ)
    → j + w ≤ grid_width
    → k ≡ i * grid_width + j
    → loop w j (row_body src i) dst ≡ loop w k (update_cell src) dst
unfolding loop update_cell
row-loop src i zero j k dst h e = refl
row-loop src i (suc w) j k dst h e =
    ap (loop w (suc j) (row_body src i)) same_cell
    ∙ row-loop src i w (suc j) (suc k) (update_cell src k dst) (omega arith) (omega arith)
  where
    row : i ≡ k / grid_width
    row = omega arith

    col : j ≡ k % grid_width
    col = omega arith

    same_cell : row_body src i j dst ≡ update_cell src k dst
    same_cell = λ t. set dst (sym e t) (to_char (is_alive (row t) (col t) src))

abbrev grid_body : List ℕ → ℕ → List ℕ → List ℕ
grid_body src i dst = loop grid_width 0 (row_body src i) dst

grid-loop :
    (src : List ℕ) (n i k : ℕ) (dst : List ℕ)
    → k ≡ i * grid_width
    → loop n i (grid_body src) dst ≡ loop (n * grid_width) k (update_cell src) dst
unfolding loop
grid-loop src zero i k dst e = refl
grid-loop src (suc n) i k dst e =
    ap (loop n (suc i) (grid_body src))
      (row-loop src i grid_width 0 k dst (omega arith) (omega arith))
    ∙ grid-loop src n (suc i) (k + grid_width) (loop grid_width k (update_cell src) dst)
        (omega arith)
    ∙ loop-add grid_width (n * grid_width) (k + grid_width) k (update_cell src) dst refl
    ∙ λ t. loop (rows t) k (update_cell src) dst
  where
    rows : grid_width + n * grid_width ≡ suc n * grid_width
    rows = omega arith

-- `update_grid` does what `update_subgrid` does on the whole range of cells.
pub update_grid-update_subgrid :
    (src dst : List ℕ) → update_grid src dst ≡ update_subgrid src 0 cell_count dst
unfolding update_grid update_subgrid
update_grid-update_subgrid src dst = grid-loop src grid_height 0 0 dst refl

-- `update_subgrid` makes every cell of its range what the rule makes of it in `src`, and leaves
-- every other cell of `dst` alone.
update_subgrid_lem :
    (src dst : List ℕ) (start end j : ℕ)
    → j < length dst
    → get_or (update_subgrid src start end dst) j 0 ≡ (
        if leb start j && ltb j end
        then to_char (is_alive (j / grid_width) (j % grid_width) src)
        else get_or dst j 0)
unfolding update_subgrid
update_subgrid_lem src dst start end j h =
    ap (λ g. get_or g j 0) (loop-update_cell src (end - start) start dst)
    ∙ get_or-update_cells src (cells_from (end - start) start) dst j 0 h
    ∙ ap (λ b. if b then next_cell src j else get_or dst j 0) (occurs-range j start end)

-- Whatever the order in which the cells are computed, as often as they are, if each of the 900
-- cells is computed at least once, then the result is that of `update_grid`.
pub update_cells-update_grid :
    (src cells dst : List ℕ)
    → length dst ≡ cell_count
    → ((j : ℕ) → j < cell_count → occurs j cells ≡ true)
    → update_cells src cells dst ≡ update_grid src dst
unfolding update_subgrid
update_cells-update_grid src cells dst size all =
    update_cells_order src cells (cells_from cell_count 0) dst (λ j h. all j (omega arith))
      (λ j h. occurs-cells_from j cell_count 0 (omega arith) (omega arith))
    ∙ sym (loop-update_cell src cell_count 0 dst)
    ∙ sym (update_grid-update_subgrid src dst)

pub length-update_grid : (src dst : List ℕ) → length (update_grid src dst) ≡ length dst
unfolding update_subgrid
length-update_grid src dst =
    ap length (update_grid-update_subgrid src dst ∙ loop-update_cell src cell_count 0 dst)
    ∙ length-update_cells src (cells_from cell_count 0) dst

get_or-update_grid :
    (src dst : List ℕ) (j : ℕ)
    → j < cell_count
    → length dst ≡ cell_count
    → get_or (update_grid src dst) j 0 ≡ next_cell src j
get_or-update_grid src dst j h k =
    ap (λ g. get_or g j 0) (update_grid-update_subgrid src dst)
    ∙ update_subgrid_lem src dst 0 cell_count j (omega arith)
    ∙ ap (λ b. if b then next_cell src j else get_or dst j 0) inside
  where
    inside : leb 0 j && ltb j cell_count ≡ true
    inside = ground arith

-- Every cell is written, so what the target held before does not matter.
pub update_grid_any :
    (src dst other : List ℕ)
    → length dst ≡ cell_count
    → length other ≡ cell_count
    → update_grid src dst ≡ update_grid src other
update_grid_any src dst other h k =
    list_ext _ _ (length-update_grid src dst ∙ h ∙ sym k ∙ sym (length-update_grid src other))
      (λ j p.
        let q : j < cell_count = omega (arith, length-update_grid src dst) in
        get_or-update_grid src dst j q h ∙ sym (get_or-update_grid src other j q k))
