-- ===== src/Life/Screen.antt =====
-- What the calls of `draw_grid` of cw09/grid.c leave on the screen.
use sysops.Common.{
  ℕ, zero, suc, ◌+◌, ◌*◌, ◌/◌, ◌%◌, ◌≡◌, ◌==◌, Bool, true, false, ltb, leb, ◌&&◌, refl, ◌∙◌, ap,
  if◌then◌else◌, List, [], ◌∷◌, ◌++◌, arith, map,
}
use sysops.Life.{grid_width, grid_height, is_set}
use sysops.Life.Drawing.{Glyph, block, space, Print, draw_cell, draw_row, draw_rows, draw_grid}

-- What stands in each row and column.
abbrev pub Screen : Type 0
Screen = ℕ → ℕ → Glyph

-- A character covers what stood in its place.
abbrev pub put : Print → Screen → Screen
put p s r c = if p.row == r && p.column == c then p.glyph else s r c

unfoldable pub put_all : List Print → Screen → Screen
put_all [] s = s
put_all (p ∷ ps) s = put_all ps (put p s)

put_all-append :
    (ps qs : List Print) (s : Screen) → put_all (ps ++ qs) s ≡ put_all qs (put_all ps s)
unfolding put_all
put_all-append [] qs s = refl
put_all-append (p ∷ ps) qs s = put_all-append ps qs (put p s)

-- The grid with two columns for each cell, the first of which shows whether the cell lives.
unfoldable pub picture : List ℕ → Screen
picture grid r c = if c % 2 == 0 && is_set grid (r * grid_width + c / 2) then block else space

-- One cell.
put_all-draw_cell :
    (grid : List ℕ) (i j : ℕ) (s : Screen) (r c : ℕ)
    → put_all (draw_cell grid i j) s r c
      ≡ (if i == r && (c / 2 == j) then picture grid r c else s r c)
unfolding put_all picture
put_all-draw_cell grid i j s r c = ground arith

-- The cells of a row from `j` on.
put_all-draw_row :
    (grid : List ℕ) (i j rest : ℕ) (s : Screen) (r c : ℕ)
    → put_all (draw_row grid i j rest) s r c
      ≡ (if i == r && (leb j (c / 2) && ltb (c / 2) (j + rest)) then picture grid r c else s r c)
unfolding draw_row put_all
put_all-draw_row grid i j zero s r c = ground arith
put_all-draw_row grid i j (suc rest) s r c =
    ap (λ t. t r c) (put_all-append (draw_cell grid i j) (draw_row grid i (j + 1) rest) s)
    ∙ put_all-draw_row grid i (j + 1) rest (put_all (draw_cell grid i j) s) r c
    ∙ ground (arith, put_all-draw_cell grid i j s r c)

-- A whole row.
put_all-row :
    (grid : List ℕ) (i : ℕ) (s : Screen) (r c : ℕ)
    → put_all (draw_row grid i 0 grid_width) s r c
      ≡ (if i == r && ltb (c / 2) grid_width then picture grid r c else s r c)
put_all-row grid i s r c = put_all-draw_row grid i 0 grid_width s r c ∙ ground arith

rows_join :
    (i r rest : ℕ) (w : Bool) (p q : Glyph)
    → (if (leb (i + 1) r && ltb r (i + 1 + rest)) && w then p else if i == r && w then p else q)
      ≡ (if (leb i r && ltb r (i + suc rest)) && w then p else q)
rows_join i r rest true p q = ground arith
rows_join i r rest false p q = ground arith

-- The rows from `i` on.
put_all-draw_rows :
    (grid : List ℕ) (i rest : ℕ) (s : Screen) (r c : ℕ)
    → put_all (draw_rows grid i rest) s r c ≡ (
        if (leb i r && ltb r (i + rest)) && ltb (c / 2) grid_width then picture grid r c else s r c)
unfolding draw_rows put_all
put_all-draw_rows grid i zero s r c = ground arith
put_all-draw_rows grid i (suc rest) s r c =
    ap (λ t. t r c) (put_all-append (draw_row grid i 0 grid_width) (draw_rows grid (i + 1) rest) s)
    ∙ put_all-draw_rows grid (i + 1) rest (put_all (draw_row grid i 0 grid_width) s) r c
    ∙ ap
        (λ q.
          if (leb (i + 1) r && ltb r (i + 1 + rest)) && ltb (c / 2) grid_width
          then picture grid r c
          else q)
        (put_all-row grid i s r c)
    ∙ rows_join i r rest (ltb (c / 2) grid_width) (picture grid r c) (s r c)

-- A screen with the picture of a grid in its first 30 rows and 60 columns.
abbrev pub overlay : List ℕ → Screen → Screen
overlay grid s r c = if ltb r grid_height && ltb c (2 * grid_width) then picture grid r c else s r c

put_all-draw_grid :
    (grid : List ℕ) (s : Screen) (r c : ℕ) → put_all (draw_grid grid) s r c ≡ overlay grid s r c
unfolding draw_grid
put_all-draw_grid grid s r c = put_all-draw_rows grid 0 grid_height s r c ∙ ground arith

-- The screen behind each of some calls of `draw_grid`.
unfoldable pub screens : List (List ℕ) → Screen → List Screen
unfolding put_all
screens [] s = []
screens (grid ∷ more) s = let t = put_all (draw_grid grid) s in t ∷ screens more t

overlay_again :
    (grid last : List ℕ) (s : Screen) (r c : ℕ)
    → overlay grid (overlay last s) r c ≡ overlay grid s r c
overlay_again grid last s r c = ground arith

all_covered :
    (grids : List (List ℕ)) (last : List ℕ) (s : Screen)
    → map (λ g. overlay g (overlay last s)) grids ≡ map (λ g. overlay g s) grids
all_covered [] last s = refl
all_covered (g ∷ more) last s =
    λ i. (λ r c. overlay_again g last s r c i) ∷ all_covered more last s i

-- Each call of `draw_grid` leaves the picture of its grid on the screen, two columns for each cell,
-- the first of which shows a block exactly if the cell is alive; whatever was drawn before, nothing
-- is left of it, and the rest of the screen is as it was.
pub screens-overlay :
    (grids : List (List ℕ)) (s : Screen) → screens grids s ≡ map (λ g. overlay g s) grids
unfolding screens
screens-overlay [] s = refl
screens-overlay (g ∷ more) s =
    ap (λ t. t ∷ screens more t) (λ i r c. put_all-draw_grid g s r c i)
    ∙ ap (λ ts. overlay g s ∷ ts) (screens-overlay more (overlay g s) ∙ all_covered more g s)
