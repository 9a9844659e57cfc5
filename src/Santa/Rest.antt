-- ===== src/Santa/Rest.antt =====
-- How the reindeer stand behind the last delivery of cw10/main.c.
use sysops.Common.{
  ◌+◌, ◌-◌, ◌<◌, ◌≤◌, ◌≡◌, ◌==◌, ◌⊎◌, inl, inr, refl, ◌∙◌, ap, sym, Bool-cases, Option, none, some,
  List, ◌∷◌, ◌++◌, replicate, length, total, total-at, length-append, arith, ltb,
}
use mathlib.Core.Path.{subst}
use sysops.Santa.{
  reindeer_count, total_deliveries, Reindeer, starting, leaving, flying, arrived, counted,
  signalled, waiting, woken, Santa, locking, checking, asleep, roused, delivering, freeing,
  unlocking, finished, Shared, Workshop, reindeer_step, santa_step, santa_moves, reindeer_moves,
  Reaches, here, then_step, start, rouse,
}
use sysops.Santa.Knowledge.{waits, waits_le, holds, santa_holds, Knows, Inv}
use sysops.Santa.Invariant.{Reaches-Inv}
use sysops.Santa.Delivery.{all_waiting}

abbrev pub AllWait : List Reindeer → Type 0
AllWait rs = total waits rs ≡ length rs

-- The number of the delivery, and the reindeer behind the last one.
abbrev pub Last : Santa → List Reindeer → Type 0
Last (unlocking i) rs = (i < total_deliveries) × (total_deliveries ≤ i + 1 → AllWait rs)
Last finished rs = AllWait rs
Last (locking i) rs = i < total_deliveries
Last (checking i) rs = i < total_deliveries
Last (asleep i) rs = i < total_deliveries
Last (roused i) rs = i < total_deliveries
Last (delivering i) rs = i < total_deliveries
Last (freeing i) rs = i < total_deliveries

abbrev SantaLast : Option Workshop → Type 0
SantaLast none = Unit {0}
SantaLast (some v) = Last v.shared.santa v.reindeer

santa_step-Last :
    (p : Santa) (s : Shared) (rs : List Reindeer)
    → Knows p s.ready_count rs
    → Last p rs
    → SantaLast (santa_step p (record { shared = s; reindeer = rs }))
unfolding santa_step
santa_step-Last (freeing i) s rs k h = elim (Bool-cases (i == total_deliveries - 1)) [
  | inl last ↦ rw last (h, λ e. k.1)
  | inr more ↦ rw more (h, λ e. ground arith)
]
santa_step-Last (unlocking i) s rs k h = elim (Bool-cases (ltb (i + 1) total_deliveries)) [
  | inl more ↦ rw more (ground arith)
  | inr last ↦ rw last (h.1 (ground arith))
]
santa_step-Last p s rs k h = ground arith

-- A reindeer that waits takes no step.
pub waiting_stays :
    (r m : Reindeer) (s t : Shared) → waits r ≡ 1 → ¬ (reindeer_step r s ≡ some (m, t))
unfolding reindeer_step
waiting_stays waiting m s t e h = ground arith
waiting_stays r m s t e h = absurd (omega arith)

pub waits-among :
    (before after : List Reindeer) (r : Reindeer) → AllWait (before ++ (r ∷ after)) → waits r ≡ 1
waits-among before after waiting h = refl
waits-among before after r h = absurd (
    omega (
      arith,
      total-at waits before after r,
      length-append before (r ∷ after),
      waits_le before,
      waits_le after,
    ))

-- What a reindeer leaves of Santa: he stands where he stood, or is roused.
abbrev Roused : Santa → Option (Reindeer × Shared) → Type 0
Roused p none = Unit {0}
Roused p (some (m, t)) = (t.santa ≡ p) ⊎ (t.santa ≡ rouse p)

reindeer_step-Roused : (r : Reindeer) (s : Shared) → Roused s.santa (reindeer_step r s)
unfolding reindeer_step
reindeer_step-Roused starting s = elim (Bool-cases (s.mutex == 0)) [
  | inl held ↦ rw held tt
  | inr free ↦ rw free (inl refl)
]
reindeer_step-Roused flying s = elim (Bool-cases (s.mutex == 0)) [
  | inl held ↦ rw held tt
  | inr free ↦ rw free (inl refl)
]
reindeer_step-Roused woken s = elim (Bool-cases (s.mutex == 0)) [
  | inl held ↦ rw held tt
  | inr free ↦ rw free (inl refl)
]
reindeer_step-Roused leaving s = inl refl
reindeer_step-Roused arrived s = inl refl
reindeer_step-Roused counted s = elim (Bool-cases (s.ready_count == reindeer_count)) [
  | inl all ↦ rw all (inr refl)
  | inr few ↦ rw few (inl refl)
]
reindeer_step-Roused signalled s = inl refl
reindeer_step-Roused waiting s = tt

Last-rouse : (p : Santa) (rs : List Reindeer) → Last p rs → Last (rouse p) rs
Last-rouse (asleep i) rs h = h
Last-rouse p rs h = h

-- While one of them can move, they do not all wait.
Last-moved : (p : Santa) (rs qs : List Reindeer) → ¬ AllWait rs → Last p rs → Last p qs
Last-moved (unlocking i) rs qs ne h = (h.0, λ e. absurd (ne (h.1 e)))
Last-moved finished rs qs ne h = absurd (ne h)
Last-moved p rs qs ne h = h

reindeer-Last :
    (before after : List Reindeer) (r m : Reindeer) (s t : Shared)
    → Last s.santa (before ++ (r ∷ after))
    → reindeer_step r s ≡ some (m, t)
    → Last t.santa (before ++ (m ∷ after))
reindeer-Last before after r m s t h e =
    elim (subst (Roused s.santa) e (reindeer_step-Roused r s)) [
      | inl same ↦ subst (λ p. Last p (before ++ (m ∷ after))) (sym same) moved
      | inr woke ↦
          subst (λ p. Last p (before ++ (m ∷ after))) (sym woke)
            (Last-rouse s.santa (before ++ (m ∷ after)) moved)
    ]
  where
    moved : Last s.santa (before ++ (m ∷ after))
    moved =
        Last-moved s.santa (before ++ (r ∷ after)) (before ++ (m ∷ after))
          (λ all. waiting_stays r m s t (waits-among before after r all) e) h

pub Reaches-Last : (w : Workshop) → Reaches start w → Last w.shared.santa w.reindeer
Reaches-Last w here = omega arith
Reaches-Last w (then_step u v before (santa_moves x e)) = subst SantaLast e (
    santa_step-Last u.shared.santa u.shared u.reindeer (Reaches-Inv u before).know
      (Reaches-Last u before))
Reaches-Last w (then_step u v before (reindeer_moves front back r m t from e)) =
    reindeer-Last front back r m u.shared t
      (subst (Last u.shared.santa) from (Reaches-Last u before)) e

-- Behind the deliveries all reindeer wait for a broadcast that does not come, and nobody has the
-- mutex.
pub finished_waiting :
    (w : Workshop)
    → Reaches start w
    → w.shared.santa ≡ finished
    → (w.reindeer ≡ replicate reindeer_count waiting) × (w.shared.mutex ≡ 1)
unfolding total
finished_waiting w r e =
    (same, omega (arith, v.lock, ap santa_holds e, ap (total holds) same, nobody_holds))
  where
    v : Inv w.shared w.reindeer
    v = Reaches-Inv w r

    same : w.reindeer ≡ replicate reindeer_count waiting
    same =
        all_waiting w.reindeer (subst (λ p. Last p w.reindeer) e (Reaches-Last w r))
        ∙ ap (λ n. replicate n waiting) v.size

    nobody_holds : total holds (replicate reindeer_count waiting) ≡ 0
    nobody_holds = refl
