-- ===== src/CMemory/Lines.antt =====
-- Lines in memory, as `fgets` stores them.
use sysops.Common.{
  ℕ, zero, suc, ◌+◌, ◌≤◌, ◌<◌, ◌≡◌, ◌≢◌, refl, ap, List, [], ◌∷◌, ◌++◌, length, set, arith,
}
use sysops.CMemory.{c_string, read_at}

-- Bytes of a line: no NUL.
abbrev pub IsLine : List ℕ → Type 0
IsLine [] = Unit {0}
IsLine (x ∷ s) = (x ≢ 0) × IsLine s

pub IsLine-append : (s t : List ℕ) → IsLine s → IsLine t → IsLine (s ++ t)
IsLine-append [] t v w = w
IsLine-append (x ∷ s) t v w = (v.0, IsLine-append s t v.1 w)

-- The string in front of a NUL.
pub c_string-line :
    (n : ℕ) (s rest : List ℕ) → IsLine s → length s ≤ n → c_string n (s ++ (0 ∷ rest)) ≡ s
unfolding c_string
c_string-line zero [] rest v h = refl
c_string-line zero (x ∷ s) rest v h = absurd (omega arith)
c_string-line (suc n) [] rest v h = refl
c_string-line (suc n) (x ∷ s) rest v h = ground (arith, c_string-line n s rest v.1)

pub length-line :
    (n : ℕ) (s rest : List ℕ)
    → IsLine s
    → length s + 1 < n
    → length (c_string n (s ++ (10 ∷ 0 ∷ rest))) ≡ length s + 1
unfolding c_string
length-line zero s rest v h = absurd (omega arith)
length-line (suc zero) [] rest v h = absurd (omega arith)
length-line (suc (suc n)) [] rest v h = refl
length-line (suc n) (x ∷ s) rest v h = ground (arith, length-line n s rest v.1)

-- A write to the first byte behind `s`.
pub set_last : (s rest : List ℕ) (x y : ℕ) → set (s ++ (x ∷ rest)) (length s) y ≡ s ++ (y ∷ rest)
set_last [] rest x y = refl
set_last (z ∷ s) rest x y = ap (λ r. z ∷ r) (set_last s rest x y)

-- A copy of a string and its NUL, into an array that holds them.
pub read_at-line :
    (n : ℕ) (s rest : List ℕ)
    → length s < n
    → (t : List ℕ) × (read_at (s ++ (0 ∷ rest)) 0 n ≡ s ++ (0 ∷ t))
unfolding read_at
read_at-line zero s rest h = absurd (omega arith)
read_at-line (suc n) [] rest h = (read_at rest 0 n, refl)
read_at-line (suc n) (x ∷ s) rest h =
    let (t, e) = read_at-line n s rest (omega arith) in (t, ap (λ r. x ∷ r) e)
