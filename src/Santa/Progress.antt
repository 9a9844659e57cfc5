-- ===== src/Santa/Progress.antt =====
-- Who can take a step in cw10/main.c.
use sysops.Common.{
  ℕ, ◌+◌, ◌-◌, ◌<◌, ◌≤◌, ◌≡◌, ◌==◌, ◌⊎◌, refl, ◌∙◌, ap, Bool-cases, inl, inr, true, false, some,
  List, [], ◌∷◌, ◌++◌, length, map, total, arith, ltb,
}
use mathlib.Core.Path.{subst}
use sysops.Santa.{
  reindeer_count, total_deliveries, Reindeer, starting, leaving, flying, arrived, counted,
  signalled, waiting, woken, Santa, locking, checking, asleep, roused, delivering, freeing,
  unlocking, finished, Shared, Workshop, reindeer_step, santa_step, Step, santa_moves,
  reindeer_moves, Reaches, start, rouse, wake,
}
use sysops.Santa.Knowledge.{holds, is_ready, santa_holds, Knows, Inv}
use sysops.Santa.Invariant.{Reaches-Inv}
use sysops.Santa.Told.{tells, Told, AllTold, Reaches-Told}

-- A reindeer in the list with some weight.
record Found (f : Reindeer → ℕ) (rs : List Reindeer) : Type 0 where
  pub front : List Reindeer
  pub back : List Reindeer
  pub one : Reindeer
  pub place : rs ≡ front ++ (one ∷ back)
  pub weight : 0 < f one

find : (f : Reindeer → ℕ) (rs : List Reindeer) → 0 < total f rs → Found f rs
unfolding total
find f [] h = absurd (omega arith)
find f (r ∷ rs) h = elim (Bool-cases (ltb 0 (f r))) [
  | inl e ↦ record { front = []; back = rs; one = r; place = refl; weight = ground arith }
  | inr e ↦
      let w = find f rs (ground arith) in
      record {
        front = r ∷ w.front;
        back = w.back;
        one = w.one;
        place = ap (λ x. r ∷ x) w.place;
        weight = w.weight;
      }
]

-- A reindeer that does not wait for the condition.
abbrev active : Reindeer → ℕ
active waiting = 0
active _ = 1

abbrev CanStep : Reindeer → Shared → Type 0
CanStep r s = (m : Reindeer) × (t : Shared) × (reindeer_step r s ≡ some (m, t))

holder_moves : (r : Reindeer) (s : Shared) → 0 < holds r → CanStep r s
unfolding reindeer_step
holder_moves leaving s h = (_, _, refl)
holder_moves arrived s h = (_, _, refl)
holder_moves counted s h = elim (Bool-cases (s.ready_count == reindeer_count)) [
  | inl all ↦ (signalled, record s { santa = rouse s.santa }, rw all refl)
  | inr few ↦ (signalled, s, rw few refl)
]
holder_moves signalled s h = (_, _, refl)
holder_moves r s h = absurd (omega arith)

active_moves : (r : Reindeer) (s : Shared) → 0 < active r → (s.mutex == 0) ≡ false → CanStep r s
unfolding reindeer_step
active_moves starting s h free = (leaving, record s { mutex = s.mutex - 1 }, rw free refl)
active_moves flying s h free = (arrived, record s { mutex = s.mutex - 1 }, rw free refl)
active_moves woken s h free = (leaving, record s { mutex = s.mutex - 1 }, rw free refl)
active_moves waiting s h free = absurd (omega arith)
active_moves r s h free = holder_moves r s (omega arith)

-- Some process can take a step.
abbrev pub CanMove : Workshop → Type 0
CanMove w = (v : Workshop) × Step w v

one_moves :
    (f : Reindeer → ℕ) (w : Workshop) (x : Found f w.reindeer) → CanStep x.one w.shared → CanMove w
one_moves f w x (m, t, e) = (
  record { shared = t; reindeer = x.front ++ (m ∷ x.back) },
  reindeer_moves x.front x.back x.one m t x.place e,
)

-- When the mutex is taken and Santa does not have it, a reindeer has it.
locked_moves :
    (w : Workshop)
    → Inv w.shared w.reindeer
    → (w.shared.mutex == 0) ≡ true
    → santa_holds w.shared.santa ≡ 0
    → CanMove w
locked_moves w v held e =
    let x = find holds w.reindeer (let l = v.lock in ground arith) in
    one_moves holds w x (holder_moves x.one w.shared x.weight)

ready_active : (rs : List Reindeer) → length rs ≤ total active rs + total is_ready rs
unfolding total
ready_active [] = omega arith
ready_active (r ∷ rs) = let h = ready_active rs in ground arith

ready_le : (rs : List Reindeer) → total is_ready rs ≤ length rs
unfolding total
ready_le [] = omega arith
ready_le (r ∷ rs) = let h = ready_le rs in ground arith

tells_le : (rs : List Reindeer) → total tells rs ≤ total active rs
unfolding total
tells_le [] = omega arith
tells_le (r ∷ rs) = let h = tells_le rs in ground arith

-- While Santa sleeps and the mutex is free, a reindeer is on its way.
sleep_moves :
    (w : Workshop) (i : ℕ)
    → Inv w.shared w.reindeer
    → AllTold w
    → w.shared.santa ≡ asleep i
    → (w.shared.mutex == 0) ≡ false
    → CanMove w
sleep_moves w i v told e free =
    let know = subst (λ p. Knows p w.shared.ready_count w.reindeer) e v.know in
    let word = subst (λ p. Told p w.shared.ready_count w.reindeer) e told in
    let some_active : 0 < total active w.reindeer =
      elim (Bool-cases (total active w.reindeer == 0)) [
        | inr some_one ↦ ground arith
        | inl no_one ↦
            let none_left : total active w.reindeer ≡ 0 = ground arith in
            let all : w.shared.ready_count ≡ reindeer_count =
              omega (arith, know, v.size, ready_active w.reindeer, ready_le w.reindeer) in
            omega (arith, word all, tells_le w.reindeer)
      ] in
    let x = find active w.reindeer some_active in
    one_moves active w x (active_moves x.one w.shared x.weight free)

santa_goes : (w v : Workshop) (p : Santa) → w.shared.santa ≡ p → santa_step p w ≡ some v → CanMove w
santa_goes w v p e h = (v, santa_moves v (ap (λ q. santa_step q w) e ∙ h))

-- Santa takes the mutex, or a reindeer has it.
santa_locks :
    (w v : Workshop) (p : Santa)
    → w.shared.santa ≡ p
    → Inv w.shared w.reindeer
    → santa_holds p ≡ 0
    → ((w.shared.mutex == 0) ≡ false → santa_step p w ≡ some v)
    → CanMove w
santa_locks w v p e i free takes = elim (Bool-cases (w.shared.mutex == 0)) [
  | inl held ↦ locked_moves w i held (ap santa_holds e ∙ free)
  | inr open_now ↦ santa_goes w v p e (takes open_now)
]

santa_or_reindeer :
    (p : Santa) (w : Workshop)
    → w.shared.santa ≡ p
    → Inv w.shared w.reindeer
    → AllTold w
    → (p ≡ finished) ⊎ CanMove w
unfolding santa_step
santa_or_reindeer (locking i) w e v told =
    let s = w.shared in
    inr (
      santa_locks w (record w { shared = record s { mutex = s.mutex - 1; santa = checking i } })
        (locking i) e v refl (λ free. rw free refl))
santa_or_reindeer (checking i) w e v told =
    elim (Bool-cases (ltb w.shared.ready_count reindeer_count)) [
      | inl few ↦
          let s = w.shared in
          let u : Workshop = record w {
            shared = record s { mutex = s.mutex + 1; santa = asleep i };
          } in
          inr (santa_goes w u (checking i) e (rw few refl))
      | inr all ↦
          let u : Workshop = record w { shared = record w.shared { santa = delivering i } } in
          inr (santa_goes w u (checking i) e (rw all refl))
    ]
santa_or_reindeer (asleep i) w e v told = elim (Bool-cases (w.shared.mutex == 0)) [
  | inl held ↦ inr (locked_moves w v held (ap santa_holds e))
  | inr free ↦ inr (sleep_moves w i v told e free)
]
santa_or_reindeer (roused i) w e v told =
    let s = w.shared in
    inr (
      santa_locks w (record w { shared = record s { mutex = s.mutex - 1; santa = checking i } })
        (roused i) e v refl (λ free. rw free refl))
santa_or_reindeer (delivering i) w e v told = inr (santa_goes w _ (delivering i) e refl)
santa_or_reindeer (freeing i) w e v told = elim (Bool-cases (i == total_deliveries - 1)) [
  | inl last ↦
      let u : Workshop = record w { shared = record w.shared { santa = unlocking i } } in
      inr (santa_goes w u (freeing i) e (rw last refl))
  | inr more ↦
      let u : Workshop = record {
        shared = record w.shared { santa = unlocking i };
        reindeer = map wake w.reindeer;
      } in
      inr (santa_goes w u (freeing i) e (rw more refl))
]
santa_or_reindeer (unlocking i) w e v told = inr (santa_goes w _ (unlocking i) e refl)
santa_or_reindeer finished w e v told = inl refl

-- There is no deadlock: in every state that the program can reach, in any order of steps, Santa
-- has finished his deliveries, or he or one of the reindeer can take a step.
pub Reaches-CanMove : (w : Workshop) → Reaches start w → (w.shared.santa ≡ finished) ⊎ CanMove w
Reaches-CanMove w r = santa_or_reindeer w.shared.santa w refl (Reaches-Inv w r) (Reaches-Told w r)
