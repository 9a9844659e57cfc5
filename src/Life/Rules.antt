-- ===== src/Life/Rules.antt =====
-- `is_alive` of cw09/grid.c against the rules of the game, which count the live cells next to a
-- cell over the whole grid.
use sysops.Common.{
  ℕ, zero, suc, ◌+◌, ◌-◌, ◌*◌, ◌≤◌, ◌<◌, ◌≡◌, refl, ◌∙◌, ap, Bool, true, false, ◌&&◌, ◌||◌, not,
  ◌==◌, leb, ltb, if◌then◌else◌, List, arith, ◌≢◌, ◌⊎◌, inl, inr, Bool-cases,
}
use sysops.Life.{count_neighbour, count_neighbours, is_alive, is_set, grid_width, grid_height}

-- The sum of `f k` over `k < n`.
unfoldable pub total : ℕ → (ℕ → ℕ) → ℕ
total zero f = 0
total (suc n) f = total n f + f n

-- Not more than one apart.
abbrev pub near : ℕ → ℕ → Bool
near a b = leb a (b + 1) && leb b (a + 1)

-- 1 for a live cell next to the given one, 0 for any other cell.
abbrev pub neighbour : ℕ → ℕ → List ℕ → ℕ → ℕ → ℕ
neighbour row col grid r c =
    if near row r && near col c && not (row == r && col == c) && is_set grid (grid_width * r + c)
    then 1
    else 0

unfoldable pub live_neighbours : ℕ → ℕ → List ℕ → ℕ
live_neighbours row col grid =
    total grid_height (λ r. total grid_width (λ c. neighbour row col grid r c))

-- A live cell stays with two or three live neighbours, and a dead one comes to life with three.
abbrev pub rule : Bool → ℕ → Bool
rule true count = count == 2 || count == 3
rule false count = count == 3

abbrev at : ℕ → (ℕ → ℕ) → ℕ → ℕ
at n f x = if ltb x n then f x else 0

abbrev before : ℕ → (ℕ → ℕ) → ℕ → ℕ
before n f k = if k == 0 then 0 else at n f (k - 1)

total-zero : (n : ℕ) (f : ℕ → ℕ) → ((k : ℕ) → f k ≡ 0) → total n f ≡ 0
unfolding total
total-zero zero f h = refl
total-zero (suc n) f h = omega (arith, total-zero n f h, h n)

-- A sum of terms that vanish away from `k` has three terms.
total-near :
    (n k : ℕ) (f : ℕ → ℕ)
    → ((c : ℕ) → near k c ≡ false → f c ≡ 0)
    → total n f ≡ before n f k + at n f k + at n f (k + 1)
unfolding total
total-near zero k f h = ground arith
total-near (suc n) k f h = ground (arith, total-near n k f h, h n)

module _ (row col : ℕ) (grid : List ℕ) (col_in : col < grid_width) where
  abbrev cell : ℕ → ℕ → ℕ
  cell r c = neighbour row col grid r c

  abbrev row_sum : ℕ → ℕ
  row_sum r = total grid_width (cell r)

  left :
      (i count : ℕ)
      → i < 3
      → 1 ≤ row + i
      → row + i ≤ grid_height
      → count_neighbour row col grid i 0 count ≡ count + before grid_width (cell (row + i - 1)) col
  unfolding count_neighbour
  left i count hi h k = ground arith

  middle :
      (i count : ℕ)
      → i < 3
      → 1 ≤ row + i
      → row + i ≤ grid_height
      → count_neighbour row col grid i 1 count ≡ count + at grid_width (cell (row + i - 1)) col
  unfolding count_neighbour
  middle i count hi h k = ground arith

  right :
      (i count : ℕ)
      → i < 3
      → 1 ≤ row + i
      → row + i ≤ grid_height
      → count_neighbour row col grid i 2 count
        ≡ count + at grid_width (cell (row + i - 1)) (col + 1)
  unfolding count_neighbour
  right i count hi h k = ground arith

  outside :
      (i j count : ℕ)
      → i ≢ 1
      → ((row + i ≡ 0) ⊎ (grid_height < row + i))
      → count_neighbour row col grid i j count ≡ count
  unfolding count_neighbour
  outside i j count ne h = ground arith

  row_sum_lem :
      (r : ℕ)
      → row_sum r
        ≡ before grid_width (cell r) col
          + at grid_width (cell r) col
          + at grid_width (cell r) (col + 1)
  row_sum_lem r = total-near grid_width col (cell r) (λ c h. ground arith)

  abbrev count_row : ℕ → ℕ → ℕ
  count_row i count =
      count_neighbour row col grid i 2
        (count_neighbour row col grid i 1 (count_neighbour row col grid i 0 count))

  in_row :
      (i count : ℕ)
      → i < 3
      → 1 ≤ row + i
      → row + i ≤ grid_height
      → count_row i count ≡ count + row_sum (row + i - 1)
  in_row i count hi h k = omega (
    arith,
    left i count hi h k,
    middle i (count_neighbour row col grid i 0 count) hi h k,
    right i (count_neighbour row col grid i 1 (count_neighbour row col grid i 0 count)) hi h k,
    row_sum_lem (row + i - 1),
  )

  out_row :
      (i count : ℕ) → i ≢ 1 → ((row + i ≡ 0) ⊎ (grid_height < row + i)) → count_row i count ≡ count
  out_row i count ne h =
      outside i 2 (count_neighbour row col grid i 1 (count_neighbour row col grid i 0 count)) ne h
      ∙ outside i 1 (count_neighbour row col grid i 0 count) ne h
      ∙ outside i 0 count ne h

  index : (r s : ℕ) → r ≡ s → row_sum r ≡ row_sum s
  index r s e = ap row_sum e

  first_row : row < grid_height → count_row 0 0 ≡ before grid_height row_sum row
  first_row h = elim (Bool-cases (row == 0)) [
    | inl top ↦ rw top (out_row 0 0 (omega arith) (inl (ground arith)))
    | inr below ↦ rw below (
        in_row 0 0 (omega arith) (ground arith) (omega arith)
        ∙ ground (arith, index (row + 0 - 1) (row - 1)))
  ]

  middle_row :
      (count : ℕ) → row < grid_height → count_row 1 count ≡ count + at grid_height row_sum row
  middle_row count h =
      in_row 1 count (omega arith) (omega arith) (omega arith)
      ∙ ground (arith, index (row + 1 - 1) row)

  last_row :
      (count : ℕ) → row < grid_height → count_row 2 count ≡ count + at grid_height row_sum (row + 1)
  last_row count h = elim (Bool-cases (ltb (row + 1) grid_height)) [
    | inl inside ↦ rw inside (
        in_row 2 count (omega arith) (omega arith) (ground arith)
        ∙ ground (arith, index (row + 2 - 1) (row + 1)))
    | inr bottom ↦ rw bottom (out_row 2 count (omega arith) (inr (ground arith)) ∙ omega arith)
  ]

  row_far : (r : ℕ) → near row r ≡ false → row_sum r ≡ 0
  row_far r h = total-zero grid_width (cell r) (λ c. ground arith)

  pub count_neighbours_lem :
      row < grid_height → count_neighbours row col grid ≡ live_neighbours row col grid
  unfolding count_neighbours live_neighbours
  count_neighbours_lem h = omega (
    arith,
    first_row h,
    middle_row (count_row 0 0) h,
    last_row (count_row 1 (count_row 0 0)) h,
    total-near grid_height row row_sum row_far,
  )

-- On the grid, `is_alive` is the rule of the game: it depends on whether the cell is live and on
-- how many of the cells of the whole grid that are next to it, horizontally, vertically or
-- diagonally, are live.
pub is_alive-rule :
    (row col : ℕ) (grid : List ℕ)
    → row < grid_height
    → col < grid_width
    → is_alive row col grid
      ≡ rule (is_set grid (row * grid_width + col)) (live_neighbours row col grid)
unfolding is_alive
is_alive-rule row col grid h k =
    rw (count_neighbours_lem row col grid k h) (by_cell (is_set grid (row * grid_width + col)))
  where
    by_cell :
        (b : Bool)
        → (if b
            then (if live_neighbours row col grid == 2 || live_neighbours row col grid == 3
                then true
                else false)
            else (if live_neighbours row col grid == 3 then true else false))
          ≡ rule b (live_neighbours row col grid)
    by_cell true = ground arith
    by_cell false = ground arith
