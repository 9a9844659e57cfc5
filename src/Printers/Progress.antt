-- ===== src/Printers/Progress.antt =====
-- The processes of cw08 do not wait for each other for ever: when all that are left wait, the
-- users or the printers have all stopped.
use sysops.Common.{
  total, ℕ, ◌<◌, ◌≡◌, ◌==◌, refl, Bool, true, false, List, [], ◌∷◌, none, some, ◌⊎◌, inl, inr,
  Bool-cases, arith,
}
use sysops.Printers.{
  PrintQueue, Process, ready, posting_full, posting_mutex, user_done, wants_slot, wants_queue,
  writing, moving_tail, idle, wants_job, got_job, reading, moving_head, unlocking, freeing,
  printing, killed, Event,
}
use sysops.Printers.Steps.{Outcome, step, user_step, printer_step}
use sysops.Printers.Weights.{has_mutex, has_job, has_slot}
use sysops.Printers.Invariant.{Inv}

abbrev is_none : Outcome → Bool
is_none none = true
is_none (some r) = false

-- A process cannot take its next step.
abbrev pub waits : PrintQueue → Process → Bool
waits q p = is_none (step true (λ i. i) p q)

abbrev pub AllWait : PrintQueue → List Process → Type 0
AllWait q [] = Unit {0}
AllWait q (p ∷ ps) = (waits q p ≡ true) × AllWait q ps

-- A killed process holds neither the mutex nor a job nor a slot.
abbrev pub Harmless : Process → Type 0
Harmless (killed p) = (has_mutex p ≡ 0) × (has_job p ≡ 0) × (has_slot p ≡ 0)
Harmless _ = Unit {0}

abbrev pub AllHarmless : List Process → Type 0
AllHarmless [] = Unit {0}
AllHarmless (p ∷ ps) = Harmless p × AllHarmless ps

-- A user that has not stopped.
abbrev pub user_runs : Process → ℕ
user_runs ready = 1
user_runs posting_full = 1
user_runs posting_mutex = 1
user_runs (wants_slot buf) = 1
user_runs (wants_queue buf) = 1
user_runs (writing buf) = 1
user_runs (moving_tail buf) = 1
user_runs _ = 0

-- A printer that has not stopped.
abbrev pub printer_runs : Process → ℕ
printer_runs idle = 1
printer_runs wants_job = 1
printer_runs got_job = 1
printer_runs reading = 1
printer_runs (moving_head job) = 1
printer_runs (unlocking job) = 1
printer_runs (freeing job) = 1
printer_runs (printing job) = 1
printer_runs _ = 0

waits-has_mutex : (q : PrintQueue) (p : Process) → waits q p ≡ true → Harmless p → has_mutex p ≡ 0
unfolding step user_step printer_step
waits-has_mutex q user_done w h = refl
waits-has_mutex q (killed p) w h = h.0
waits-has_mutex q p w h = ground arith

-- What is known of a waiting process while nobody has the mutex.
abbrev Waiting : PrintQueue → Process → Type 0
Waiting q p =
    (has_job p ≡ 0)
    × (has_slot p ≡ 0)
    × (0 < q.empty → user_runs p ≡ 0)
    × (0 < q.full → printer_runs p ≡ 0)

waits-Waiting :
    (q : PrintQueue) (p : Process) → waits q p ≡ true → Harmless p → q.mutex ≡ 1 → Waiting q p
unfolding step user_step printer_step
waits-Waiting q user_done w s m = (ground arith, ground arith, λ h. ground arith, λ h. ground arith)
waits-Waiting q (killed p) w s m = (s.1, s.2, λ h. refl, λ h. refl)
waits-Waiting q p w s m = (ground arith, ground arith, λ h. ground arith, λ h. ground arith)

waits-total :
    (q : PrintQueue) (ps : List Process) → AllWait q ps → AllHarmless ps → total has_mutex ps ≡ 0
unfolding total
waits-total q [] w s = refl
waits-total q (p ∷ ps) w s = omega (arith, waits-has_mutex q p w.0 s.0, waits-total q ps w.1 s.1)

-- Each of the four facts of `Waiting`, for all processes.
record AllWaiting (q : PrintQueue) (ps : List Process) : Type 0 where
  jobs_held : total has_job ps ≡ 0
  slots_held : total has_slot ps ≡ 0
  users_stopped : 0 < q.empty → total user_runs ps ≡ 0
  printers_stopped : 0 < q.full → total printer_runs ps ≡ 0

waits-AllWaiting :
    (q : PrintQueue) (ps : List Process)
    → AllWait q ps
    → AllHarmless ps
    → q.mutex ≡ 1
    → AllWaiting q ps
unfolding total
waits-AllWaiting q [] w s m = record {
  jobs_held = refl;
  slots_held = refl;
  users_stopped = λ h. refl;
  printers_stopped = λ h. refl;
}
waits-AllWaiting q (p ∷ ps) w s m =
    let one = waits-Waiting q p w.0 s.0 m in
    let all = waits-AllWaiting q ps w.1 s.1 m in
    record {
      jobs_held = omega (arith, one.0, all.jobs_held);
      slots_held = omega (arith, one.1, all.slots_held);
      users_stopped = λ h. omega (arith, one.2 h, all.users_stopped h);
      printers_stopped = λ h. omega (arith, one.3 h, all.printers_stopped h);
    }

pub AllWait-stopped :
    (ps : List Process) (q : PrintQueue) (seen : List Event)
    → Inv ps q seen
    → AllWait q ps
    → AllHarmless ps
    → (total user_runs ps ≡ 0) ⊎ (total printer_runs ps ≡ 0)
AllWait-stopped ps q seen v w s = elim (Bool-cases (q.empty == 0)) [
  | inl none_empty ↦
      (let drained : q.empty ≡ 0 = ground arith in
        inr (
          all.printers_stopped
            (omega (arith, v.jobs_posted, v.slots_free, all.jobs_held, all.slots_held))))
  | inr some_empty ↦ inl (all.users_stopped (ground arith))
]
  where
    all : AllWaiting q ps
    all = waits-AllWaiting q ps w s (omega (arith, v.lock, waits-total q ps w s))
