-- ===== src/Common/Loops.antt =====
-- Counted loops.
use Prim.Native.Nat.{ℕ, zero, suc, ◌+◌}
use mathlib.Core.Path.{◌≡◌, ◌∙◌}
use native.Mathlib.Omega.{arith}

-- `for (k = first; k < first + rounds; k++) s = body(k, s);`
unfoldable pub loop {ℓ} : {S : Type ℓ} → ℕ → ℕ → (ℕ → S → S) → S → S
loop zero first body s = s
loop (suc rounds) first body s = loop rounds (suc first) body (body first s)

-- A loop in two parts.
pub loop-add {ℓ} :
    {S : Type ℓ} (a b c first : ℕ) (body : ℕ → S → S) (s : S)
    → first + a ≡ c
    → loop b c body (loop a first body s) ≡ loop (a + b) first body s
unfolding loop
loop-add zero b c first body s e = λ i. loop (plus i) (start i) body s
  where
    plus : b ≡ 0 + b
    plus = omega arith

    start : c ≡ first
    start = omega arith
loop-add (suc a) b c first body s e =
    loop-add a b c (suc first) body (body first s) (omega arith) ∙ λ i. loop (more i) first body s
  where
    more : suc (a + b) ≡ suc a + b
    more = omega arith

-- What each round keeps holds behind the loop.
pub loop_keeps {ℓ κ} :
    {S : Type ℓ} (P : ℕ → S → Type κ) (end : ℕ) (body : ℕ → S → S)
    → ((i r : ℕ) (s : S) → i + suc r ≡ end → P i s → P (suc i) (body i s))
    → (rounds i : ℕ) (s : S) → i + rounds ≡ end
    → P i s
    → P end (loop rounds i body s)
unfolding loop
loop_keeps P end body keep zero i s e h = let e' : end ≡ i = omega arith in rw e' h
loop_keeps P end body keep (suc rounds) i s e h =
    loop_keeps P end body keep rounds (suc i) (body i s) (omega arith) (keep i rounds s e h)
