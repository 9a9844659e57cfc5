-- ===== src/Santa/Closing.antt =====
-- What holds in every run of cw10/main.c, the creation and the cancelling of its threads included.
pub mod Turns
pub mod Ending
pub mod Going
use sysops.Common.{
  ℕ, ◌+◌, ◌-◌, ◌<◌, ◌≤◌, ◌≡◌, ◌≢◌, ◌==◌, ltb, refl, ◌∙◌, ap, sym, Bool, true, false, Bool-cases,
  inl, inr, Option, none, some, List, [], ◌∷◌, ◌++◌, replicate, map, length, drop, drop_all, total,
  arith, length-append, suc, zero,
}
use mathlib.Core.Path.{subst}
use sysops.Santa.{
  reindeer_count, total_deliveries, Reindeer, starting, waiting, Santa, locking, checking, asleep,
  roused, delivering, freeing, unlocking, finished, Shared, Workshop, santa_step, reindeer_step,
  santa_moves, reindeer_moves, Reaches, here, then_step, start, wake,
}
use sysops.Santa.Knowledge.{waits}
use sysops.Santa.Invariant.{Reaches-Inv}
use sysops.Santa.Rest.{AllWait, waits-among, waiting_stays, finished_waiting}
use sysops.Santa.Program.{
  Main, creating_santa, creating, storing, joining, destroying, returned, created, Program,
  cancel_step, has_returned, stop, main_step, Turn, main_turns, santa_turns, santa_cancels,
  reindeer_turns, reindeer_stops, Runs, at_rest, then_turn, launch,
}

-- A reindeer that has taken a step.
abbrev pub moved : Reindeer → ℕ
moved starting = 0
moved _ = 1

abbrev pub is_over : Main → Bool
is_over destroying = true
is_over returned = true
is_over _ = false

-- Whether the reindeer of a number has taken a step.
abbrev pub moved_at : ℕ → List Reindeer → ℕ
moved_at i [] = 0
moved_at zero (r ∷ rs) = moved r
moved_at (suc i) (r ∷ rs) = moved_at i rs

-- The program before Santa's first `pthread_cancel` and after it.
pub data Phase (w : Workshop) (cancelled : ℕ) (gone : List ℕ) : Type 0 where
  working : Reaches start w → cancelled ≡ 0 → gone ≡ [] → Phase w cancelled gone
  closing :
      w.shared.santa ≡ finished
      → w.reindeer ≡ replicate reindeer_count waiting
      → w.shared.mutex + length gone ≡ 1
      → cancelled ≤ reindeer_count
      → Phase w cancelled gone

pub record Good (p : Program) : Type 0 where
  pub unborn : total moved (drop (created p.main) p.workshop.reindeer) ≡ 0
  pub missing : (i : ℕ) → p.creates.reindeer i ≡ false → moved_at i p.workshop.reindeer ≡ 0
  pub phase : Phase p.workshop p.cancelled p.gone
  pub over : is_over p.main ≡ true → p.cancelled ≡ reindeer_count

pub all_nine :
    total waits (replicate reindeer_count waiting) ≡ length (replicate reindeer_count waiting)
unfolding total
all_nine = refl

pub Phase-size :
    {w : Workshop} {k : ℕ} {g : List ℕ} → Phase w k g → length w.reindeer ≡ reindeer_count
Phase-size {w} (working r c e) = (Reaches-Inv w r).size
Phase-size (closing e rest m c) = ap length rest

abbrev pub MainKeeps : Program → Option Main → Type 0
MainKeeps p none = Unit {0}
MainKeeps p (some m) =
    (total moved (drop (created m) p.workshop.reindeer) ≡ 0)
    × (is_over m ≡ true → p.cancelled ≡ reindeer_count)

drop_nine :
    (rs : List Reindeer) → length rs ≡ reindeer_count → total moved (drop reindeer_count rs) ≡ 0
unfolding total
drop_nine rs z = ap (total moved) (drop_all reindeer_count rs (omega arith))

drop_more : (n : ℕ) (rs : List Reindeer) → total moved (drop (suc n) rs) ≤ total moved (drop n rs)
unfolding total
drop_more zero [] = omega arith
drop_more zero (r ∷ rs) = omega arith
drop_more (suc n) [] = omega arith
drop_more (suc n) (r ∷ rs) = drop_more n rs

returned_count : (p : Santa) (i : ℕ) → has_returned p i ≡ true → i ≡ reindeer_count
unfolding has_returned
returned_count finished i e = ground arith
returned_count p i e = ground arith

pub main_step-Keeps :
    (m : Main) (p : Program)
    → total moved (drop (created m) p.workshop.reindeer) ≡ 0
    → Phase p.workshop p.cancelled p.gone
    → (is_over m ≡ true → p.cancelled ≡ reindeer_count)
    → MainKeeps p (main_step m p)
unfolding main_step
main_step-Keeps creating_santa p h ph o = (h, λ e. ground arith)
main_step-Keeps (creating i) p h ph o = elim (Bool-cases (ltb i reindeer_count)) [
  | inl more ↦ rw more (
    let next : i + 1 ≡ suc i = omega arith in
        omega (
          arith,
          drop_more i p.workshop.reindeer,
          ap (λ n. total moved (drop n p.workshop.reindeer)) next,
        ),
    λ e. ground arith,
  )
  | inr last ↦ rw last (drop_nine p.workshop.reindeer (Phase-size ph), λ e. ground arith)
]
main_step-Keeps (storing i) p h ph o = (h, λ e. ground arith)
main_step-Keeps joining p h ph o =
    elim (Bool-cases (has_returned p.workshop.shared.santa p.cancelled)) [
      | inl back ↦ rw back (h, λ e. returned_count p.workshop.shared.santa p.cancelled back)
      | inr not_yet ↦ rw not_yet tt
    ]
main_step-Keeps destroying p h ph o = (h, o)
main_step-Keeps returned p h ph o = tt

abbrev pub SantaUnborn : ℕ → List Reindeer → Option Workshop → Type 0
SantaUnborn n rs none = Unit {0}
SantaUnborn n rs (some v) = total moved (drop n v.reindeer) ≡ total moved (drop n rs)

drop-wake :
    (n : ℕ) (rs : List Reindeer) → total moved (drop n (map wake rs)) ≡ total moved (drop n rs)
unfolding total
drop-wake zero [] = refl
drop-wake zero (r ∷ rs) = ground (arith, drop-wake zero rs)
drop-wake (suc n) [] = refl
drop-wake (suc n) (r ∷ rs) = drop-wake n rs

pub santa_step-Unborn :
    (n : ℕ) (p : Santa) (w : Workshop) → SantaUnborn n w.reindeer (santa_step p w)
unfolding santa_step
santa_step-Unborn n (freeing i) w = elim (Bool-cases (i == total_deliveries - 1)) [
  | inl last ↦ rw last refl
  | inr more ↦ rw more (drop-wake n w.reindeer)
]
santa_step-Unborn n p w = ground arith

-- The reindeer behind one that moves stand where they stood.
pub drop-behind :
    (before after : List Reindeer) (r m : Reindeer) (n : ℕ)
    → length before < n
    → drop n (before ++ (m ∷ after)) ≡ drop n (before ++ (r ∷ after))
drop-behind [] after r m zero h = absurd (omega arith)
drop-behind [] after r m (suc n) h = refl
drop-behind (x ∷ before) after r m zero h = absurd (omega arith)
drop-behind (x ∷ before) after r m (suc n) h = drop-behind before after r m n (omega arith)

pub cancel_next :
    (p : Santa) (k i : ℕ)
    → cancel_step p k ≡ some i
    → (p ≡ finished) × (k < reindeer_count) × (i ≡ k + 1)
unfolding cancel_step
cancel_next finished k i e = ground arith
cancel_next p k i e = ground arith

pub moved_at-wake : (i : ℕ) (rs : List Reindeer) → moved_at i (map wake rs) ≡ moved_at i rs
moved_at-wake i [] = refl
moved_at-wake zero (r ∷ rs) = ground arith
moved_at-wake (suc i) (r ∷ rs) = moved_at-wake i rs

abbrev pub SantaStill : ℕ → List Reindeer → Option Workshop → Type 0
SantaStill i rs none = Unit {0}
SantaStill i rs (some v) = moved_at i v.reindeer ≡ moved_at i rs

pub santa_step-Still : (i : ℕ) (p : Santa) (w : Workshop) → SantaStill i w.reindeer (santa_step p w)
unfolding santa_step
santa_step-Still i (freeing j) w = elim (Bool-cases (j == total_deliveries - 1)) [
  | inl last ↦ rw last refl
  | inr more ↦ rw more (moved_at-wake i w.reindeer)
]
santa_step-Still i p w = ground arith

pub moved_at-other :
    (before after : List Reindeer) (r m : Reindeer) (i : ℕ)
    → i ≢ length before
    → moved_at i (before ++ (m ∷ after)) ≡ moved_at i (before ++ (r ∷ after))
moved_at-other [] after r m zero h = absurd (h refl)
moved_at-other [] after r m (suc i) h = refl
moved_at-other (x ∷ before) after r m zero h = refl
moved_at-other (x ∷ before) after r m (suc i) h =
    moved_at-other before after r m i (λ e. h (omega (arith, e)))
