-- ===== src/Common/Arrays.antt =====
-- Arrays element by element.
use sysops.Common.Lists.{length, get_or, set, take, drop, length-append}
use sysops.Common.Tests.{◌==◌, ltb, if◌then◌else◌}
use Prim.Native.Nat.{ℕ, zero, suc, ◌+◌, ◌-◌, ◌<◌, ◌≤◌}
use mathlib.Core.Path.{◌≡◌, refl, ◌∙◌, ap}
use mathlib.Core.List.{List, [], ◌∷◌, ◌++◌, reverse, reverse-cons}
use native.Mathlib.Omega.{arith}
use native.Mathlib.Decide.{dec_lt}

pub get_or-set :
    (xs : List ℕ) (i j v d : ℕ)
    → j < length xs
    → get_or (set xs i v) j d ≡ (if j == i then v else get_or xs j d)
get_or-set [] i j v d h = absurd (omega arith)
get_or-set (x ∷ xs) zero zero v d h = refl
get_or-set (x ∷ xs) zero (suc j) v d h = ground arith
get_or-set (x ∷ xs) (suc i) zero v d h = ground arith
get_or-set (x ∷ xs) (suc i) (suc j) v d h = ground (arith, get_or-set xs i j v d)

-- Arrays of one length are equal if their elements are.
pub list_ext :
    (xs ys : List ℕ)
    → length xs ≡ length ys
    → ((j : ℕ) → j < length xs → get_or xs j 0 ≡ get_or ys j 0)
    → xs ≡ ys
list_ext [] [] e h = refl
list_ext [] (y ∷ ys) e h = absurd (omega arith)
list_ext (x ∷ xs) [] e h = absurd (omega arith)
list_ext (x ∷ xs) (y ∷ ys) e h =
    λ i. h 0 (omega arith) i ∷ list_ext xs ys (omega arith) (λ j p. h (suc j) (omega arith)) i

pub get_or-append :
    (xs ys : List ℕ) (j d : ℕ)
    → get_or (xs ++ ys) j d
      ≡ (if ltb j (length xs) then get_or xs j d else get_or ys (j - length xs) d)
get_or-append [] ys j d = ground arith
get_or-append (x ∷ xs) ys zero d = ground arith
get_or-append (x ∷ xs) ys (suc j) d = ground (arith, get_or-append xs ys j d)

pub length-reverse : (xs : List ℕ) → length (reverse xs) ≡ length xs
length-reverse [] = refl
length-reverse (x ∷ xs) =
    ap length (reverse-cons x xs)
    ∙ omega (arith, length-append (reverse xs) (x ∷ []), length-reverse xs)

-- A reversed array, from its other end.
pub get_or-reverse :
    (xs : List ℕ) (j d : ℕ)
    → j < length xs
    → get_or (reverse xs) j d ≡ get_or xs (length xs - 1 - j) d
get_or-reverse [] j d h = absurd (omega arith)
get_or-reverse (x ∷ xs) j d h =
    ap (λ r. get_or r j d) (reverse-cons x xs)
    ∙ get_or-append (reverse xs) (x ∷ []) j d
    ∙ elim (dec_lt j (length xs)) [
      | yes p ↦
          let inner : suc (length xs) - 1 - j ≡ suc (length xs - 1 - j) = omega arith in
          rw inner (ground (arith, length-reverse xs, get_or-reverse xs j d p))
      | no p ↦
          let first : suc (length xs) - 1 - j ≡ 0 = omega arith in
          let last : j - length (reverse xs) ≡ 0 = omega (arith, length-reverse xs) in
          rw (first, last) (ground (arith, length-reverse xs))
    ]

pub get_or-take : (n : ℕ) (xs : List ℕ) (j d : ℕ) → j < n → get_or (take n xs) j d ≡ get_or xs j d
get_or-take zero xs j d h = absurd (omega arith)
get_or-take (suc n) [] j d h = refl
get_or-take (suc n) (x ∷ xs) zero d h = refl
get_or-take (suc n) (x ∷ xs) (suc j) d h = get_or-take n xs j d (omega arith)

pub take-append-drop-length : (n : ℕ) (xs : List ℕ) → take n xs ++ drop (length (take n xs)) xs ≡ xs
take-append-drop-length zero xs = refl
take-append-drop-length (suc n) [] = refl
take-append-drop-length (suc n) (x ∷ xs) = ap (λ r. x ∷ r) (take-append-drop-length n xs)

pub drop-drop : (n k m : ℕ) (xs : List ℕ) → n + k ≡ m → drop k (drop n xs) ≡ drop m xs
drop-drop zero k m xs e = let same : k ≡ m = omega arith in ap (λ i. drop i xs) same
drop-drop (suc n) k zero xs e = absurd (omega arith)
drop-drop (suc n) zero (suc m) [] e = refl
drop-drop (suc n) (suc k) (suc m) [] e = refl
drop-drop (suc n) k (suc m) (x ∷ xs) e = drop-drop n k m xs (omega arith)

pub drop_all {ℓ} : {A : Type ℓ} (n : ℕ) (xs : List A) → length xs ≤ n → drop n xs ≡ []
drop_all zero [] h = refl
drop_all zero (x ∷ xs) h = absurd (omega arith)
drop_all (suc n) [] h = refl
drop_all (suc n) (x ∷ xs) h = drop_all n xs (omega arith)

pub drop-get_or :
    (n : ℕ) (xs : List ℕ) (d : ℕ) → n < length xs → drop n xs ≡ get_or xs n d ∷ drop (suc n) xs
drop-get_or n [] d h = absurd (omega arith)
drop-get_or zero (x ∷ xs) d h = refl
drop-get_or (suc n) (x ∷ xs) d h = drop-get_or n xs d (omega arith)
