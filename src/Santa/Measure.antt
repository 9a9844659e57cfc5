-- ===== src/Santa/Measure.antt =====
-- How long cw10/main.c can run.
use sysops.Common.{
  ℕ, ◌+◌, ◌-◌, ◌*◌, ◌<◌, ◌≤◌, ◌≡◌, ◌⊎◌, ◌==◌, ◌∙◌, ap, sym, Bool-cases, inl, inr, Option, none,
  some, List, [], ◌∷◌, ◌++◌, map, length, total, total-swap, arith, ltb,
}
use mathlib.Core.Path.{subst}
use sysops.Santa.{
  reindeer_count, total_deliveries, Reindeer, starting, leaving, flying, arrived, counted,
  signalled, waiting, woken, Santa, locking, checking, asleep, roused, delivering, freeing,
  unlocking, finished, Shared, Workshop, reindeer_step, santa_step, rouse, wake,
}
use sysops.Santa.Rest.{AllWait, Last, Reaches-Last}
use sysops.Santa.Program.{
  Main, creating_santa, creating, storing, joining, destroying, returned, Program, stop, main_step,
  Turn, main_turns, santa_turns, santa_cancels, reindeer_turns, reindeer_stops, Runs, at_rest,
  then_turn, launch, Creates, AllCreated,
}
use sysops.Santa.Closing.{all_nine, Phase, working, closing, cancel_next, Phase-size}
use sysops.Santa.Closing.Going.{CanTurn, Runs-CanTurn}
use sysops.Santa.Closing.Turns.{stop_waiting, one_waits, Runs-Good}

-- Three for each step to the next wait: the one that rouses Santa gives him two.
abbrev reindeer_rank : Reindeer → ℕ
reindeer_rank starting = 18
reindeer_rank woken = 18
reindeer_rank leaving = 15
reindeer_rank flying = 12
reindeer_rank arrived = 9
reindeer_rank counted = 6
reindeer_rank signalled = 3
reindeer_rank waiting = 0

-- A delivery pays for the reindeer that it frees.
abbrev delivery_rank : ℕ → ℕ
delivery_rank i = (total_deliveries - i) * 167

abbrev santa_rank : Santa → ℕ
santa_rank (locking i) = delivery_rank i + 5
santa_rank (checking i) = delivery_rank i + 4
santa_rank (asleep i) = delivery_rank i + 3
santa_rank (roused i) = delivery_rank i + 5
santa_rank (delivering i) = delivery_rank i + 3
santa_rank (freeing i) = delivery_rank i + 2
santa_rank (unlocking i) = delivery_rank (i + 1) + 6
santa_rank finished = 0

abbrev main_rank : Main → ℕ
main_rank creating_santa = 22
main_rank (creating i) = (reindeer_count - i) * 2 + 3
main_rank (storing i) = (reindeer_count - 1 - i) * 2 + 4
main_rank joining = 2
main_rank destroying = 1
main_rank returned = 0

abbrev workshop_rank : Workshop → ℕ
workshop_rank w = santa_rank w.shared.santa + total reindeer_rank w.reindeer

abbrev rank : Program → ℕ
rank p =
    workshop_rank p.workshop
    + (main_rank p.main + ((reindeer_count - p.cancelled) + (1 - length p.gone)))

wake_rank :
    (rs : List Reindeer)
    → total reindeer_rank (map wake rs) ≤ total reindeer_rank rs + 18 * length rs
unfolding total
wake_rank [] = omega arith
wake_rank (r ∷ rs) = ground (arith, wake_rank rs)

abbrev SantaSinks : ℕ → Option Workshop → Type 0
SantaSinks n none = Unit {0}
SantaSinks n (some v) = workshop_rank v < n

santa_step-Sinks :
    (p : Santa) (s : Shared) (rs : List Reindeer)
    → length rs ≡ reindeer_count
    → Last p rs
    → SantaSinks
        (santa_rank p + total reindeer_rank rs)
        (santa_step p (record { shared = s; reindeer = rs }))
unfolding santa_step
santa_step-Sinks (freeing i) s rs z h = elim (Bool-cases (i == total_deliveries - 1)) [
  | inl last ↦ rw last (ground arith)
  | inr more ↦ rw more (ground (arith, wake_rank rs))
]
santa_step-Sinks (unlocking i) s rs z h = elim (Bool-cases (ltb (i + 1) total_deliveries)) [
  | inl more ↦ rw more (ground arith)
  | inr last ↦ rw last (ground arith)
]
santa_step-Sinks p s rs z h = ground arith

rouse_rank : (p : Santa) → santa_rank (rouse p) ≤ santa_rank p + 2
rouse_rank p = ground arith

abbrev ReindeerSinks : ℕ → Option (Reindeer × Shared) → Type 0
ReindeerSinks n none = Unit {0}
ReindeerSinks n (some (m, t)) = reindeer_rank m + santa_rank t.santa < n

reindeer_step-Sinks :
    (r : Reindeer) (s : Shared)
    → ReindeerSinks (reindeer_rank r + santa_rank s.santa) (reindeer_step r s)
unfolding reindeer_step
reindeer_step-Sinks counted s = elim (Bool-cases (s.ready_count == reindeer_count)) [
  | inl all ↦ rw all (omega (arith, rouse_rank s.santa))
  | inr few ↦ rw few (omega arith)
]
reindeer_step-Sinks r s = ground arith

abbrev MainSinks : ℕ → Option Main → Type 0
MainSinks n none = Unit {0}
MainSinks n (some m) = main_rank m < n

main_step-Sinks : (m : Main) (p : Program) → MainSinks (main_rank m) (main_step m p)
unfolding main_step
main_step-Sinks m p = ground arith

-- Only the reindeer that ends first gets the mutex.
stop_first :
    {w : Workshop} {k : ℕ} {g : List ℕ} (before after : List Reindeer) (r : Reindeer) (t : Shared)
    → w.reindeer ≡ before ++ (r ∷ after)
    → length before < k
    → stop r w.shared ≡ some t
    → Phase w k g
    → (length g ≡ 0) × (t.santa ≡ w.shared.santa)
stop_first before after r t place told e (working s c h) = absurd (omega arith)
stop_first {w} before after r t place told e (closing f rest m c) =
    let took = stop_waiting r w.shared t (one_waits before after r (sym rest ∙ place)) e in
    (omega (arith, took.0), took.1)

Phase-Last : {w : Workshop} {k : ℕ} {g : List ℕ} → Phase w k g → Last w.shared.santa w.reindeer
Phase-Last {w} (working r c h) = Reaches-Last w r
Phase-Last {w} (closing f rest m c) =
    subst (λ p. Last p w.reindeer) (sym f) (subst AllWait (sym rest) all_nine)

Turn-rank : (c : Creates) (n : ℕ) (p q : Program) → Runs (launch c) n p → Turn p q → rank q < rank p
Turn-rank c n p q run (main_turns m e) =
    let down = subst (MainSinks (main_rank p.main)) e (main_step-Sinks p.main p) in omega arith
Turn-rank c n p q run (santa_turns w up there e) =
    let down = subst (SantaSinks (workshop_rank p.workshop)) e (
      santa_step-Sinks p.workshop.shared.santa p.workshop.shared p.workshop.reindeer
        (Phase-size (Runs-Good c n p run).phase) (Phase-Last (Runs-Good c n p run).phase)) in
    omega arith
Turn-rank c n p q run (santa_cancels i up e) =
    let next = cancel_next p.workshop.shared.santa p.cancelled i e in omega arith
Turn-rank c n p q run (reindeer_turns before after r m t up born exists alive place e) =
    let down =
      subst (ReindeerSinks (reindeer_rank r + santa_rank p.workshop.shared.santa)) e
        (reindeer_step-Sinks r p.workshop.shared) in
    omega (arith, total-swap reindeer_rank before after r m, ap (total reindeer_rank) place)
Turn-rank c n p q run (reindeer_stops before after r t up told alive place e) =
    let first = stop_first before after r t place told e (Runs-Good c n p run).phase in
    omega (arith, first.0, ap santa_rank first.1)

Runs-rank : (c : Creates) (n : ℕ) (p : Program) → Runs (launch c) n p → n + rank p ≤ 867
unfolding total
Runs-rank c n p at_rest = omega arith
Runs-rank c n p (then_turn k q r before t) =
    omega (arith, Runs-rank c k q before, Turn-rank c k q p before t)

-- When every `pthread_create` works, every run of the program ends: in no order of steps from the
-- call of `main` do the threads take more than 867 steps, and behind each run `main` has returned,
-- or one of the threads can take a step.
pub Runs-ends :
    (c : Creates) (n : ℕ) (p : Program)
    → AllCreated c
    → Runs (launch c) n p
    → (n ≤ 867) × ((p.main ≡ returned) ⊎ CanTurn p)
Runs-ends c n p all r = (omega (arith, Runs-rank c n p r), Runs-CanTurn c n p all r)
