-- ===== src/CMemory/Strings.antt =====
-- strncmp decides the equality of NUL-terminated strings.
use sysops.Common.{ℕ, zero, suc, ◌≡◌, refl, ◌↔◌, true, List, [], ◌∷◌, arith}
use sysops.CMemory.{c_string, str_eq, read_at}

-- Two strings compare equal exactly when their bytes before the NUL are the same.
pub str_eq_iff : (n : ℕ) (s t : List ℕ) → (str_eq n s t ≡ true) ↔ (c_string n s ≡ c_string n t)
unfolding c_string str_eq
str_eq_iff zero s t = (λ h. refl, λ h. refl)
str_eq_iff (suc n) [] [] = (λ h. refl, λ h. refl)
str_eq_iff (suc n) [] (y ∷ t) = ground arith
str_eq_iff (suc n) (x ∷ s) [] = ground arith
str_eq_iff (suc n) (x ∷ s) (y ∷ t) = ground (arith, str_eq_iff n s t)

pub str_eq_refl : (n : ℕ) (s : List ℕ) → str_eq n s s ≡ true
str_eq_refl n s = (str_eq_iff n s s).1 refl

pub str_eq_sym : (n : ℕ) (s t : List ℕ) → str_eq n s t ≡ str_eq n t s
str_eq_sym n s t = ground (arith, str_eq_iff n s t, str_eq_iff n t s)

-- A copy of the first `n` bytes is the same string to `strncmp`.
pub c_string-read_at : (n : ℕ) (s : List ℕ) → c_string n (read_at s 0 n) ≡ c_string n s
unfolding c_string read_at
c_string-read_at zero s = refl
c_string-read_at (suc n) [] = refl
c_string-read_at (suc n) (x ∷ s) = ground (arith, c_string-read_at n s)

pub str_eq-read_at : (n : ℕ) (s t : List ℕ) → str_eq n (read_at s 0 n) t ≡ str_eq n s t
str_eq-read_at n s t =
    ground (arith, str_eq_iff n (read_at s 0 n) t, str_eq_iff n s t, c_string-read_at n s)
