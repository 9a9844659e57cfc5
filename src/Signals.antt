-- ===== src/Signals.antt =====
-- cw05: what a process does on SIGUSR1 (cw05/zad1/main.c), and a catcher that works on request
-- (cw05/zad2/catcher.c) for its senders (cw05/zad2/sender.c).
pub mod Reaction
pub mod Requests
pub mod Exchange
mod Tests
mod ExchangeTests
use sysops.Common.{
  ℕ, zero, suc, ◌+◌, ◌==◌, ◌&&◌, Bool, true, false, if◌then◌else◌, leb, Option, none, some, List,
  [], ◌∷◌, ◌++◌, loop, ℤ, pos, negsuc,
}

abbrev pub work_numbers : ℕ
work_numbers = 1

abbrev pub work_print_n_changes : ℕ
work_print_n_changes = 2

abbrev pub work_finish : ℕ
work_finish = 3

-- A line that the catcher prints, or a signal that it sends.
pub data Output : Type 0 where
  from_pid : ℕ → Output
  number : ℕ → Output
  work_type_changes : ℕ → Output
  exiting : Output
  confirms : ℕ → Output

-- The catcher while it waits in `pause`, with `work_type_updates`; or it has left, with whether it
-- returned EXIT_SUCCESS.
pub data Catcher : Type 0 where
  pausing : ℕ → Catcher
  left : Bool → Catcher

unfoldable pub print_numbers : List Output
unfolding loop
print_numbers = loop 100 1 (λ i out. out ++ (number i ∷ [])) []

unfoldable pub work_dispatch : ℕ → ℕ → List Output
work_dispatch updates work_type =
    if work_type == work_numbers
    then print_numbers
    else if work_type == work_print_n_changes
    then work_type_changes updates ∷ []
    else []

-- A SIGUSR1 that arrives: its sender, its value, and whether `kill` reaches the sender.
pub record Request : Type 0 where
  pub pid : ℕ
  pub work_type : ℕ
  pub reached : Bool

-- `sig_handler` of the catcher. A `kill` that fails sends nothing.
unfoldable pub sig_handler : Request → ℕ → List Output × Catcher
unfolding work_dispatch
sig_handler r updates =
    let work = from_pid r.pid ∷ work_dispatch updates r.work_type in
    if r.reached
    then (if r.work_type == work_finish
        then (work ++ (confirms r.pid ∷ exiting ∷ []), left true)
        else (work ++ (confirms r.pid ∷ []), pausing (updates + 1)))
    else (work, left false)

-- The loop of `main` of the catcher, on the signals that arrive.
unfoldable pub catch_from : Catcher → List Request → List Output × Catcher
unfolding sig_handler
catch_from c [] = ([], c)
catch_from (left ok) (r ∷ more) = ([], left ok)
catch_from (pausing updates) (r ∷ more) =
    let (out, next) = sig_handler r updates in
    let (later, last) = catch_from next more in (out ++ later, last)

-- How `main` of the sender ends: it returns, or it waits in `sigsuspend` for ever.
pub data Sending : Type 0 where
  succeeds fails waits : Sending

-- What the sender finds: how `strtol` read the first argument (`none`: out of range, or something
-- behind the number), what `atoi` made of the second, and whether `sigaction` and `sigqueue` work
-- and SIGUSR1 (or SIGINT) comes.
pub record SenderRun : Type 0 where
  pub catcher_pid : Option ℕ
  pub work_type : ℤ
  pub handles : Bool
  pub queued : Bool
  pub confirmed : Bool

abbrev pub in_range : ℤ → Bool
in_range (pos n) = leb 1 n && leb n 3
in_range (negsuc n) = false

-- `main` of the sender with two arguments: the signal that it queues, with its value, and its end.
unfoldable pub send_work : SenderRun → Option (ℕ × ℤ) × Sending
send_work r = elim r.catcher_pid [
  | none ↦ (none, fails)
  | some pid ↦
      if in_range r.work_type
      then (if r.handles
          then (if r.queued
              then (some (pid, r.work_type), if r.confirmed then succeeds else waits)
              else (none, fails))
          else (none, fails))
      else (none, fails)
]
