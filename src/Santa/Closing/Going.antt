-- ===== src/Santa/Closing/Going.antt =====
-- A run of cw10/main.c goes on until `main` has returned.
use sysops.Common.{
  ℕ, ◌+◌, ◌<◌, ◌≡◌, ◌⊎◌, inl, inr, refl, ◌∙◌, ap, sym, Bool-cases, some, [], ◌∷◌, length,
  length-append, arith, ltb,
}
use mathlib.Core.Path.{subst}
use sysops.Santa.{reindeer_count, finished, Workshop, Step, santa_moves, reindeer_moves}
use sysops.Santa.Invariant.{Reaches-Inv}
use sysops.Santa.Progress.{Reaches-CanMove}
use sysops.Santa.Program.{
  Main, creating_santa, creating, storing, joining, destroying, returned, Creates, AllCreated,
  Runs-creates, Program, cancel_step, has_returned, main_step, Turn, main_turns, santa_turns,
  santa_cancels, reindeer_turns, Runs, launch,
}
use sysops.Santa.Closing.{Phase, working, closing}
use sysops.Santa.Closing.Turns.{Runs-Good}

abbrev pub CanTurn : Program → Type 0
CanTurn p = (q : Program) × Turn p q

-- A step of the loops is a step of the program, when all threads exist and none has ended.
lifted :
    (p : Program) (v : Workshop)
    → p.main ≡ joining
    → p.gone ≡ []
    → AllCreated p.creates
    → length p.workshop.reindeer ≡ reindeer_count
    → Step p.workshop v
    → CanTurn p
lifted p v e h all z (santa_moves u s) = (_, santa_turns u (rw e refl) all.0 s)
lifted p v e h all z (reindeer_moves before after r m t place s) =
    let inside : length before < reindeer_count =
      omega (arith, z, ap length place, length-append before (r ∷ after)) in
    (
      _,
      reindeer_turns before after r m t (rw e refl) (rw e inside) (all.1 (length before) inside)
          (rw h refl) place s,
    )

main_goes : (p : Program) (m k : Main) → p.main ≡ k → main_step k p ≡ some m → CanTurn p
main_goes p m k e s = (_, main_turns m (ap (λ j. main_step j p) e ∙ s))

-- Santa cancels the next reindeer.
cancels_next :
    (p : Program)
    → p.main ≡ joining
    → p.workshop.shared.santa ≡ finished
    → p.cancelled < reindeer_count
    → CanTurn p
unfolding cancel_step
cancels_next p e f h = (
  _,
  santa_cancels (p.cancelled + 1) (rw e refl)
      (ap (λ s. cancel_step s p.cancelled) f ∙ ground arith),
)

joining_goes :
    (p : Program)
    → AllCreated p.creates
    → p.main ≡ joining
    → Phase p.workshop p.cancelled p.gone
    → CanTurn p
unfolding main_step has_returned
joining_goes p all e (working r c h) = elim (Reaches-CanMove p.workshop r) [
  | inl done ↦ cancels_next p e done (omega arith)
  | inr (v, s) ↦ lifted p v e h all (Reaches-Inv p.workshop r).size s
]
joining_goes p all e (closing f rest m c) = elim (Bool-cases (ltb p.cancelled reindeer_count)) [
  | inl more ↦ cancels_next p e f (ground arith)
  | inr done ↦ main_goes p destroying joining e (rw f (ground arith))
]

goes :
    (k : Main) (p : Program)
    → AllCreated p.creates
    → p.main ≡ k
    → Phase p.workshop p.cancelled p.gone
    → (k ≡ returned) ⊎ CanTurn p
unfolding main_step
goes creating_santa p all e ph = inr (main_goes p (creating 0) creating_santa e refl)
goes (creating i) p all e ph = elim (Bool-cases (ltb i reindeer_count)) [
  | inl more ↦ inr (main_goes p (storing i) (creating i) e (rw more refl))
  | inr last ↦ inr (main_goes p joining (creating i) e (rw last refl))
]
goes (storing i) p all e ph = inr (main_goes p (creating (i + 1)) (storing i) e refl)
goes joining p all e ph = inr (joining_goes p all e ph)
goes destroying p all e ph = inr (main_goes p returned destroying e refl)
goes returned p all e ph = inl refl

-- When every `pthread_create` works the program never gets stuck: in any state of a run, in any
-- order of steps, `main` has returned or one of the threads can take a step.
pub Runs-CanTurn :
    (c : Creates) (n : ℕ) (p : Program)
    → AllCreated c
    → Runs (launch c) n p
    → (p.main ≡ returned) ⊎ CanTurn p
Runs-CanTurn c n p all r =
    goes p.main p (subst AllCreated (sym (Runs-creates c n p r)) all) refl (Runs-Good c n p r).phase
