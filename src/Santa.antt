-- ===== src/Santa.antt =====
-- cw10/main.c: Santa and nine reindeer, who wait for each other with a mutex and two condition
-- variables.
pub mod Knowledge
pub mod Invariant
pub mod Delivery
pub mod Told
pub mod Progress
pub mod Program
pub mod Rest
pub mod Closing
pub mod Measure
mod Schedule
mod Tests
mod ClosingTests
use sysops.Common.{
  ℕ, ◌+◌, ◌-◌, ◌≡◌, ◌==◌, ltb, Bool, true, false, if◌then◌else◌, Option, none, some, List, [], ◌∷◌,
  ◌++◌, map, replicate,
}

abbrev pub total_deliveries : ℕ
total_deliveries = 4

abbrev pub reindeer_count : ℕ
reindeer_count = 9

-- Where a reindeer stands in `reindeer`: in front of its first lock, inside with the mutex, on
-- holiday, behind the increment, behind the signal, in `pthread_cond_wait`, and woken from it
-- without the mutex.
pub data Reindeer : Type 0 where
  starting leaving flying arrived counted signalled waiting woken : Reindeer

-- Where Santa stands in delivery `i` of `santa`.
pub data Santa : Type 0 where
  locking checking asleep roused delivering freeing unlocking : ℕ → Santa
  finished : Santa

-- The globals, with Santa; `mutex` is 1 while it is free.
pub record Shared : Type 0 where
  pub ready_count : ℕ
  pub mutex : ℕ
  pub santa : Santa

pub record Workshop : Type 0 where
  pub shared : Shared
  pub reindeer : List Reindeer

-- `pthread_cond_signal(&santa_wake_up_cond)`
abbrev pub rouse : Santa → Santa
rouse (asleep i) = roused i
rouse p = p

-- A step of a reindeer; `none`: it waits for the mutex or the condition.
unfoldable pub reindeer_step : Reindeer → Shared → Option (Reindeer × Shared)
reindeer_step starting s =
    if s.mutex == 0 then none else some (leaving, record s { mutex = s.mutex - 1 })
reindeer_step leaving s = some (flying, record s { mutex = s.mutex + 1 })
reindeer_step flying s =
    if s.mutex == 0 then none else some (arrived, record s { mutex = s.mutex - 1 })
reindeer_step arrived s = some (counted, record s { ready_count = s.ready_count + 1 })
reindeer_step counted s =
    if s.ready_count == reindeer_count
    then some (signalled, record s { santa = rouse s.santa })
    else some (signalled, s)
reindeer_step signalled s = some (waiting, record s { mutex = s.mutex + 1 })
reindeer_step waiting s = none
reindeer_step woken s =
    if s.mutex == 0 then none else some (leaving, record s { mutex = s.mutex - 1 })

-- `pthread_cond_broadcast(&reindeer_free_to_go_cond)`, for one reindeer.
abbrev pub wake : Reindeer → Reindeer
wake waiting = woken
wake r = r

-- A step of Santa. The toys are delivered in `delivering`, before the count is reset.
unfoldable pub santa_step : Santa → Workshop → Option Workshop
santa_step (locking i) w =
    let s = w.shared in
    if s.mutex == 0
    then none
    else some (record w { shared = record s { mutex = s.mutex - 1; santa = checking i } })
santa_step (checking i) w =
    let s = w.shared in
    if ltb s.ready_count reindeer_count
    then some (record w { shared = record s { mutex = s.mutex + 1; santa = asleep i } })
    else some (record w { shared = record s { santa = delivering i } })
santa_step (asleep i) w = none
santa_step (roused i) w =
    let s = w.shared in
    if s.mutex == 0
    then none
    else some (record w { shared = record s { mutex = s.mutex - 1; santa = checking i } })
santa_step (delivering i) w =
    some (record w { shared = record w.shared { ready_count = 0; santa = freeing i } })
santa_step (freeing i) w =
    let s = record w.shared { santa = unlocking i } in
    if i == total_deliveries - 1
    then some (record w { shared = s })
    else some (record { shared = s; reindeer = map wake w.reindeer })
santa_step (unlocking i) w =
    let s = w.shared in
    let next = if ltb (i + 1) total_deliveries then locking (i + 1) else finished in
    some (record w { shared = record s { mutex = s.mutex + 1; santa = next } })
santa_step finished w = none

-- Santa or one of the reindeer takes a step.
pub data Step (w : Workshop) : Workshop → Type 0 where
  santa_moves : (v : Workshop) → santa_step w.shared.santa w ≡ some v → Step w v
  reindeer_moves :
      (before after : List Reindeer) (r m : Reindeer) (t : Shared)
      → w.reindeer ≡ before ++ (r ∷ after)
      → reindeer_step r w.shared ≡ some (m, t)
      → Step w (record { shared = t; reindeer = before ++ (m ∷ after) })

pub data Reaches (w : Workshop) : Workshop → Type 0 where
  here : Reaches w w
  then_step : (u v : Workshop) → Reaches w u → Step u v → Reaches w v

-- The start of `main`.
abbrev pub start : Workshop
start = record {
  shared = record { ready_count = 0; mutex = 1; santa = locking 0 };
  reindeer = replicate reindeer_count starting;
}
