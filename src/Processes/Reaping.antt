-- ===== src/Processes/Reaping.antt =====
-- The children of cw04/zad1, and the waits for them.
use sysops.Common.{
  ℕ, zero, suc, ◌+◌, ◌≡◌, ◌↔◌, refl, ap, Bool, true, some, List, [], ◌∷◌, ◌++◌, replicate, ℤ,
  rounds_of, arith, Bool-cases, inl, inr,
}
use sysops.Processes.{Act, starts, waits, counts, start_children, run_processes}

-- How many children are started, and how many are waited for.
abbrev pub started : List Act → ℕ
started [] = 0
started (starts ∷ acts) = suc (started acts)
started (waits ∷ acts) = started acts
started (counts n ∷ acts) = started acts

abbrev pub waited : List Act → ℕ
waited [] = 0
waited (starts ∷ acts) = waited acts
waited (waits ∷ acts) = suc (waited acts)
waited (counts n ∷ acts) = waited acts

waits-count :
    (k : ℕ) (acts : List Act)
    → (started (replicate k waits ++ acts) ≡ started acts)
      × (waited (replicate k waits ++ acts) ≡ k + waited acts)
waits-count zero acts = (refl, omega arith)
waits-count (suc k) acts = let (s, w) = waits-count k acts in (s, (omega arith))

only_waits : (k : ℕ) → (started (replicate k waits) ≡ 0) × (waited (replicate k waits) ≡ k)
only_waits zero = (refl, refl)
only_waits (suc k) = let (s, w) = only_waits k in (s, ap suc w)

-- What the loop does from round `i` on, with the waits for `i + rest` children behind it.
record Reaps (rest i : ℕ) (r : List Act × Bool) : Type 0 where
  pub balance : waited r.0 ≡ i + started r.0
  pub complete : (r.1 ≡ true) ↔ (started r.0 ≡ rest)

start_children-Reaps :
    (forks : ℕ → Bool) (rest i total : ℕ) (n : ℤ)
    → i + rest ≡ total
    → Reaps rest i (start_children forks rest i (replicate total waits ++ (counts n ∷ []), true))
unfolding start_children
start_children-Reaps forks zero i total n e =
    let (s, w) = waits-count total (counts n ∷ []) in
    record { balance = omega arith; complete = (λ done. s, λ same. refl) }
start_children-Reaps forks (suc rest) i total n e = elim (Bool-cases (forks i)) [
  | inl f ↦
      let r = start_children-Reaps forks rest (i + 1) total n (omega arith) in
      let b = r.balance in
      let (to, from) = r.complete in
      rw (start_children, f)
        (record {
          balance = omega arith;
          complete = (λ ok. ap suc (to ok), λ same. from (omega arith));
        })
  | inr f ↦
      let (s, w) = only_waits i in
      rw (start_children, f)
        (record { balance = omega arith; complete = (λ ok. ground arith, λ all. ground arith) })
]

-- With any argument that is a number, and whichever `fork` fails: as many children are waited for
-- as are started, and `main` returns EXIT_SUCCESS exactly if that is as many as it was asked for
-- (none, when the number is negative).
pub run_processes-reaps :
    (n : ℤ) (forks : ℕ → Bool)
    → (waited (run_processes (some n) forks).0 ≡ started (run_processes (some n) forks).0)
      × (((run_processes (some n) forks).1 ≡ true)
          ↔ (started (run_processes (some n) forks).0 ≡ rounds_of n))
unfolding run_processes
run_processes-reaps n forks =
    let r = start_children-Reaps forks (rounds_of n) 0 (rounds_of n) n (omega arith) in
    (let b = r.balance in omega arith, r.complete)
