-- ===== src/Santa/Invariant.antt =====
-- The steps of cw10/main.c keep what is known.
use sysops.Common.{
  ◌+◌, ◌-◌, ◌<◌, ◌≡◌, ◌==◌, refl, ◌∙◌, ap, sym, Bool-cases, inl, inr, Option, none, some, List, ◌∷◌,
  ◌++◌, length, length-append, total, total-at, total-swap, arith, ltb,
}
use mathlib.Core.Path.{subst}
use sysops.Santa.{
  reindeer_count, total_deliveries, Reindeer, starting, leaving, flying, arrived, counted,
  signalled, waiting, woken, Santa, locking, checking, asleep, roused, delivering, freeing,
  unlocking, finished, Shared, Workshop, reindeer_step, santa_step, Step, santa_moves,
  reindeer_moves, Reaches, here, then_step, start,
}
use sysops.Santa.Knowledge.{
  holds, is_ready, santa_holds, Knows, Inv, all_wait, total-wake, holds-wake, length-wake,
  Knows-unlocked, rouse-Inv,
}

-- The invariant behind a step of Santa.
abbrev SantaKeeps : Option Workshop → Type 0
SantaKeeps none = Unit {0}
SantaKeeps (some v) = Inv v.shared v.reindeer

santa_step-Keeps :
    (p : Santa) (s : Shared) (rs : List Reindeer)
    → length rs ≡ reindeer_count
    → s.mutex + total holds rs + santa_holds p ≡ 1
    → Knows p s.ready_count rs
    → SantaKeeps (santa_step p (record { shared = s; reindeer = rs }))
unfolding santa_step
santa_step-Keeps (locking i) s rs z l k = elim (Bool-cases (s.mutex == 0)) [
  | inl held ↦ rw held tt
  | inr free ↦ rw free (record { size = z; lock = ground arith; know = k })
]
santa_step-Keeps (checking i) s rs z l k = elim (Bool-cases (ltb s.ready_count reindeer_count)) [
  | inl few ↦ rw few (record { size = z; lock = omega arith; know = k })
  | inr all ↦
      rw all (record {
        size = z;
        lock = l;
        know = all_wait s.mutex s.ready_count rs z l k (ground arith);
      })
]
santa_step-Keeps (asleep i) s rs z l k = tt
santa_step-Keeps (roused i) s rs z l k = elim (Bool-cases (s.mutex == 0)) [
  | inl held ↦ rw held tt
  | inr free ↦ rw free (record { size = z; lock = ground arith; know = k })
]
santa_step-Keeps (delivering i) s rs z l k = record { size = z; lock = l; know = (refl, k) }
santa_step-Keeps (freeing i) s rs z l k = elim (Bool-cases (i == total_deliveries - 1)) [
  | inl last ↦ rw last (record { size = z; lock = l; know = λ h. ground arith })
  | inr more ↦ rw more (record {
    size = length-wake rs ∙ z;
    lock = omega (arith, holds-wake rs);
    know = λ h. omega (arith, k.0, total-wake rs k.1);
  })
]
santa_step-Keeps (unlocking i) s rs z l k = elim (Bool-cases (ltb (i + 1) total_deliveries)) [
  | inl more ↦ rw more (record { size = z; lock = omega arith; know = k more })
  | inr last ↦ rw last (record { size = z; lock = omega arith; know = tt })
]
santa_step-Keeps finished s rs z l k = tt

module _ (before after : List Reindeer) where
  -- The invariant behind a step of the reindeer between `before` and `after`.
  abbrev Keeps : Option (Reindeer × Shared) → Type 0
  Keeps none = Unit {0}
  Keeps (some (m, t)) = Inv t (before ++ (m ∷ after))

  length-swap : (r m : Reindeer) → length (before ++ (m ∷ after)) ≡ length (before ++ (r ∷ after))
  length-swap r m =
      omega (arith, length-append before (m ∷ after), length-append before (r ∷ after))

  kept :
      (r m : Reindeer) (s t : Shared)
      → Inv s (before ++ (r ∷ after))
      → t.mutex + holds m ≡ s.mutex + holds r
      → 0 < t.mutex + holds m
      → t.ready_count + is_ready r ≡ s.ready_count + is_ready m
      → t.santa ≡ s.santa
      → Inv t (before ++ (m ∷ after))
  kept r m s t v x pos c e = record {
    size = length-swap r m ∙ v.size;
    lock = omega (arith, v.lock, total-swap holds before after r m, ap santa_holds e);
    know =
        subst (λ p. Knows p t.ready_count (before ++ (m ∷ after))) (sym e)
          (Knows-unlocked s.santa s.ready_count t.ready_count (before ++ (r ∷ after))
            (before ++ (m ∷ after)) (omega (arith, v.lock, total-at holds before after r))
            (λ k. omega (arith, k, total-swap is_ready before after r m)) v.know);
  }

  -- A reindeer takes the mutex.
  took :
      (r m : Reindeer) (s : Shared)
      → Inv s (before ++ (r ∷ after))
      → 0 < s.mutex
      → holds r ≡ 0
      → holds m ≡ 1
      → is_ready r ≡ is_ready m
      → Inv (record s { mutex = s.mutex - 1 }) (before ++ (m ∷ after))
  took r m s v free h g i =
      kept r m s (record s { mutex = s.mutex - 1 }) v (omega arith) (omega arith) (omega arith) refl

  reindeer_step-Keeps :
      (r : Reindeer) (s : Shared) → Inv s (before ++ (r ∷ after)) → Keeps (reindeer_step r s)
  unfolding reindeer_step
  reindeer_step-Keeps starting s v = elim (Bool-cases (s.mutex == 0)) [
    | inl held ↦ rw held tt
    | inr free ↦ rw free (took starting leaving s v (ground arith) refl refl refl)
  ]
  reindeer_step-Keeps flying s v = elim (Bool-cases (s.mutex == 0)) [
    | inl held ↦ rw held tt
    | inr free ↦ rw free (took flying arrived s v (ground arith) refl refl refl)
  ]
  reindeer_step-Keeps woken s v = elim (Bool-cases (s.mutex == 0)) [
    | inl held ↦ rw held tt
    | inr free ↦ rw free (took woken leaving s v (ground arith) refl refl refl)
  ]
  reindeer_step-Keeps leaving s v =
      kept leaving flying s (record s { mutex = s.mutex + 1 }) v (omega arith) (omega arith) refl
        refl
  reindeer_step-Keeps arrived s v =
      kept arrived counted s (record s { ready_count = s.ready_count + 1 }) v refl (omega arith)
        (omega arith) refl
  reindeer_step-Keeps counted s v =
      let told = kept counted signalled s s v refl (omega arith) refl refl in
      elim (Bool-cases (s.ready_count == reindeer_count)) [
        | inl all ↦ rw all (rouse-Inv s (before ++ (signalled ∷ after)) told)
        | inr few ↦ rw few told
      ]
  reindeer_step-Keeps signalled s v =
      kept signalled waiting s (record s { mutex = s.mutex + 1 }) v (omega arith) (omega arith) refl
        refl
  reindeer_step-Keeps waiting s v = tt

Step-Inv : (w v : Workshop) → Inv w.shared w.reindeer → Step w v → Inv v.shared v.reindeer
Step-Inv w v i (santa_moves u e) =
    subst SantaKeeps e (santa_step-Keeps w.shared.santa w.shared w.reindeer i.size i.lock i.know)
Step-Inv w v i (reindeer_moves before after r m t from e) =
    subst (Keeps before after) e
      (reindeer_step-Keeps before after r w.shared (subst (Inv w.shared) from i))

start-Inv : Inv start.shared start.reindeer
unfolding total
start-Inv = record { size = refl; lock = refl; know = refl }

pub Reaches-Inv : (w : Workshop) → Reaches start w → Inv w.shared w.reindeer
Reaches-Inv w here = start-Inv
Reaches-Inv w (then_step u v before st) = Step-Inv u v (Reaches-Inv u before) st
