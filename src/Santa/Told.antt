-- ===== src/Santa/Told.antt =====
-- Who is about to wake Santa in cw10/main.c, while he sleeps.
use sysops.Common.{
  ℕ, ◌+◌, ◌<◌, ◌≤◌, ◌≡◌, ◌≢◌, ◌==◌, Bool-cases, inl, inr, Option, none, some, List, ◌∷◌, ◌++◌,
  total, total-at, total-swap, arith,
}
use mathlib.Core.Path.{subst}
use sysops.Santa.{
  reindeer_count, Reindeer, starting, leaving, flying, arrived, counted, signalled, waiting, woken,
  Santa, locking, checking, asleep, roused, delivering, freeing, unlocking, finished, Shared,
  Workshop, reindeer_step, santa_step, santa_moves, reindeer_moves, Reaches, here, then_step, start,
  rouse,
}

-- A reindeer that has counted itself and is about to look whether all have come.
abbrev pub tells : Reindeer → ℕ
tells counted = 1
tells _ = 0

-- While Santa sleeps and all are counted, one of them is about to wake him.
abbrev pub Told : Santa → ℕ → List Reindeer → Type 0
Told (asleep i) c rs = c ≡ reindeer_count → 0 < total tells rs
Told _ c rs = Unit {0}

abbrev SantaTold : Option Workshop → Type 0
SantaTold none = Unit {0}
SantaTold (some v) = Told v.shared.santa v.shared.ready_count v.reindeer

santa_step-Told :
    (p : Santa) (s : Shared) (rs : List Reindeer)
    → SantaTold (santa_step p (record { shared = s; reindeer = rs }))
unfolding santa_step
santa_step-Told (locking i) s rs = ground arith
santa_step-Told (checking i) s rs = ground arith
santa_step-Told (asleep i) s rs = tt
santa_step-Told (roused i) s rs = ground arith
santa_step-Told (delivering i) s rs = tt
santa_step-Told (freeing i) s rs = ground arith
santa_step-Told (unlocking i) s rs = ground arith
santa_step-Told finished s rs = tt

-- A reindeer that moves without a word on the count.
Told-swap :
    (before after : List Reindeer) (r m : Reindeer) (p : Santa) (c : ℕ)
    → tells r ≤ tells m
    → Told p c (before ++ (r ∷ after))
    → Told p c (before ++ (m ∷ after))
Told-swap before after r m (asleep i) c h k =
    λ e. let t = k e in omega (arith, t, total-swap tells before after r m)
Told-swap before after r m p c h k = ground arith

Told-counted :
    (before after : List Reindeer) (p : Santa) (c : ℕ) → Told p c (before ++ (counted ∷ after))
Told-counted before after (asleep i) c = λ e. omega (arith, total-at tells before after counted)
Told-counted before after p c = ground arith

Told-rouse : (p : Santa) (c : ℕ) (rs : List Reindeer) → Told (rouse p) c rs
Told-rouse (asleep i) c rs = tt
Told-rouse p c rs = ground arith

Told-few : (p : Santa) (c : ℕ) (rs : List Reindeer) → c ≢ reindeer_count → Told p c rs
Told-few (asleep i) c rs ne = λ e. absurd (ne e)
Told-few p c rs ne = ground arith

module _ (before after : List Reindeer) where
  abbrev ReindeerTold : Option (Reindeer × Shared) → Type 0
  ReindeerTold none = Unit {0}
  ReindeerTold (some (m, t)) = Told t.santa t.ready_count (before ++ (m ∷ after))

  reindeer_step-Told :
      (r : Reindeer) (s : Shared)
      → Told s.santa s.ready_count (before ++ (r ∷ after))
      → ReindeerTold (reindeer_step r s)
  unfolding reindeer_step
  reindeer_step-Told starting s k = elim (Bool-cases (s.mutex == 0)) [
    | inl held ↦ rw held tt
    | inr free ↦
        rw free (Told-swap before after starting leaving s.santa s.ready_count (omega arith) k)
  ]
  reindeer_step-Told flying s k = elim (Bool-cases (s.mutex == 0)) [
    | inl held ↦ rw held tt
    | inr free ↦
        rw free (Told-swap before after flying arrived s.santa s.ready_count (omega arith) k)
  ]
  reindeer_step-Told woken s k = elim (Bool-cases (s.mutex == 0)) [
    | inl held ↦ rw held tt
    | inr free ↦
        rw free (Told-swap before after woken leaving s.santa s.ready_count (omega arith) k)
  ]
  reindeer_step-Told leaving s k =
      Told-swap before after leaving flying s.santa s.ready_count (omega arith) k
  reindeer_step-Told arrived s k = Told-counted before after s.santa (s.ready_count + 1)
  reindeer_step-Told counted s k = elim (Bool-cases (s.ready_count == reindeer_count)) [
    | inl all ↦ rw all (Told-rouse s.santa s.ready_count (before ++ (signalled ∷ after)))
    | inr few ↦
        rw few (Told-few s.santa s.ready_count (before ++ (signalled ∷ after)) (ground arith))
  ]
  reindeer_step-Told signalled s k =
      Told-swap before after signalled waiting s.santa s.ready_count (omega arith) k
  reindeer_step-Told waiting s k = tt

abbrev pub AllTold : Workshop → Type 0
AllTold w = Told w.shared.santa w.shared.ready_count w.reindeer

pub Reaches-Told : (w : Workshop) → Reaches start w → AllTold w
Reaches-Told w here = tt
Reaches-Told w (then_step u v before (santa_moves x e)) =
    subst SantaTold e (santa_step-Told u.shared.santa u.shared u.reindeer)
Reaches-Told w (then_step u v before (reindeer_moves front back r m t from e)) =
    subst (ReindeerTold front back) e (
      reindeer_step-Told front back r u.shared
        (subst (Told u.shared.santa u.shared.ready_count) from (Reaches-Told u before)))
