-- ===== src/Integral/Shares.antt =====
-- The shares of the processes of cw06/zad1.
use sysops.Common.{
  ℕ, zero, suc, ◌+◌, ◌-◌, ◌*◌, ◌/◌, ◌%◌, ◌<◌, ◌≡◌, ◌==◌, Bool, ◌∙◌, ap, sym, true, false,
  if◌then◌else◌, List, [], ◌∷◌, ◌++◌, append_assoc, loop, arith,
}
use native.Mathlib.Nat.{suc-mul, zero-mul, one-mul, div-add-mod}
use sysops.Integral.{child_first, child_steps}

-- The `k` rectangles from `a` on.
unfoldable pub rectangles : ℕ → ℕ → List ℕ
rectangles a zero = []
rectangles a (suc k) = a ∷ rectangles (suc a) k

-- Those of the children in turn.
unfoldable pub shares : ℕ → ℕ → List ℕ
unfolding loop
shares n total =
    loop n 0 (λ i out. out ++ rectangles (child_first n total i) (child_steps n total i)) []

rectangles-append : (a j k : ℕ) → rectangles a j ++ rectangles (a + j) k ≡ rectangles a (j + k)
unfolding rectangles
rectangles-append a zero k =
    let front : a + 0 ≡ a = omega arith in
    let all : k ≡ 0 + k = omega arith in ap (λ x. rectangles x k) front ∙ ap (rectangles a) all
rectangles-append a (suc j) k =
    let front : a + suc j ≡ suc a + j = omega arith in
    let all : suc (j + k) ≡ suc j + k = omega arith in
    ap (λ x. a ∷ (rectangles (suc a) j ++ rectangles x k)) front
    ∙ ap (λ x. a ∷ x) (rectangles-append (suc a) j k)
    ∙ ap (rectangles a) all

module _ (n total : ℕ) where
  abbrev steps : ℕ
  steps = total / n

  -- The share of a child before the last, and of the last.
  share_lem :
      (i a : ℕ) (b : Bool)
      → (i == n - 1) ≡ b
      → a ≡ i * steps
      → rectangles (child_first n total i) (child_steps n total i)
        ≡ rectangles a (if b then steps + total % n else steps)
  share_lem i a b e at =
      ap (λ x. rectangles (i * steps) (if x then steps + total % n else steps)) e
      ∙ ap (λ x. rectangles x (if b then steps + total % n else steps)) (sym at)

  -- The rounds from child `i` on, the last of them behind `rest` others.
  shares_from :
      (rest i a : ℕ) (out : List ℕ)
      → i + rest + 1 ≡ n
      → a ≡ i * steps
      → loop
          (suc rest)
          i
          (λ i out. out ++ rectangles (child_first n total i) (child_steps n total i))
          out
        ≡ out ++ rectangles a (suc rest * steps + total % n)
  unfolding loop
  shares_from zero i a out e at =
      let last : (i == n - 1) ≡ true = ground arith in
      let own : steps + total % n ≡ 1 * steps + total % n = omega (arith, one-mul steps) in
      ap (λ x. out ++ x) (share_lem i a true last at ∙ ap (rectangles a) own)
  shares_from (suc rest) i a out e at =
      let more : (i == n - 1) ≡ false = ground arith in
      let all : steps + (suc rest * steps + total % n) ≡ suc (suc rest) * steps + total % n =
        omega (arith, suc-mul (suc rest) steps) in
      let front : a + steps ≡ suc i * steps = omega (arith, at, suc-mul i steps) in
      let behind = rectangles (a + steps) (suc rest * steps + total % n) in
      shares_from rest (suc i) (a + steps)
        (out ++ rectangles (child_first n total i) (child_steps n total i)) (omega arith) front
      ∙ ap (λ x. (out ++ x) ++ behind) (share_lem i a false more at)
      ∙ append_assoc out (rectangles a steps) behind
      ∙ ap (λ x. out ++ x)
          (rectangles-append a steps (suc rest * steps + total % n) ∙ ap (rectangles a) all)

-- Whatever the numbers of processes (not 0) and of rectangles: the shares of the children put
-- behind each other are all rectangles from the first to the last, in order, each once.
pub shares-rectangles : (n total : ℕ) → 0 < n → shares n total ≡ rectangles 0 total
unfolding shares
shares-rectangles zero total h = absurd (omega arith)
shares-rectangles (suc n) total h =
    shares_from (suc n) total n 0 0 [] (omega arith) (sym (zero-mul (total / suc n)))
    ∙ ap (rectangles 0) (div-add-mod total (suc n))
