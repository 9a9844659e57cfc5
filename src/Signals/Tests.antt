-- ===== src/Signals/Tests.antt =====
-- A catcher with two senders, the four ways to take SIGUSR1, and the sender, at concrete inputs.
use sysops.Common.{ℕ, ◌≡◌, refl, true, false, none, some, List, [], ◌∷◌, ◌++◌, pos, arith}
use sysops.CMemory.{bytes, str_eq}
use sysops.Signals.{
  work_print_n_changes, work_finish, work_type_changes, exiting, confirms, from_pid, pausing, left,
  Request, work_dispatch, sig_handler, catch_from, SenderRun, send_work, succeeds, waits, fails,
}
use sysops.Signals.Reaction.{
  main, run, raised, Calls, success, failure, killed, received, pending_yes,
}
use sysops.Signals.Requests.{Shows, before_each, catch_from-finish}

abbrev asks : ℕ → Request
asks who = record { pid = who; work_type = work_print_n_changes; reached = true }

abbrev ends : Request
ends = record { pid = 9; work_type = work_finish; reached = true }

abbrev two_asks : List Request
two_asks = asks 7 ∷ asks 8 ∷ []

catcher_runs : catch_from (pausing 0) (asks 7 ∷ asks 8 ∷ ends ∷ asks 7 ∷ []) ≡ (
  from_pid 7
      ∷ work_type_changes 0
      ∷ confirms 7
      ∷ from_pid 8
      ∷ work_type_changes 1
      ∷ confirms 8
      ∷ from_pid 9
      ∷ confirms 9
      ∷ exiting
      ∷ [],
  left true,
)
unfolding catch_from sig_handler work_dispatch
catcher_runs = refl

catch_from-finish_example :
    Shows
      (catch_from (pausing 0) (asks 7 ∷ asks 8 ∷ ends ∷ asks 7 ∷ []))
      (7 ∷ 8 ∷ 9 ∷ [])
      (0 ∷ 1 ∷ [])
      (left true)
unfolding before_each
catch_from-finish_example =
    catch_from-finish 0 two_asks ends (asks 7 ∷ [])
      (refl, (ground arith), (refl, (ground arith), tt)) refl refl

abbrev works : Calls
works = record { masks = true; acts = true; raises = true; asks = true }

abbrev arg : List ℕ → List ℕ
arg word = word ++ (0 ∷ [])

by_default : main works (arg (bytes "none")) ≡ ([], killed)
unfolding main raised str_eq
by_default = refl

ignored : main works (arg (bytes "ignore")) ≡ ([], success)
unfolding main raised str_eq
ignored = refl

handled : main works (arg (bytes "handler")) ≡ (received ∷ [], success)
unfolding main raised str_eq
handled = refl

masked_out : main works (arg (bytes "mask")) ≡ (pending_yes ∷ [], success)
unfolding main raised str_eq
masked_out = refl

unknown : main works (arg (bytes "mas")) ≡ ([], failure)
unfolding main raised str_eq
unknown = refl

abbrev sender_run : SenderRun
sender_run = record {
  catcher_pid = some 42;
  work_type = pos 3;
  handles = true;
  queued = true;
  confirmed = true;
}

sender_runs : send_work sender_run ≡ (some (42, pos 3), succeeds)
unfolding send_work
sender_runs = refl

unconfirmed : send_work (record sender_run { confirmed = false }) ≡ (some (42, pos 3), waits)
unfolding send_work
unconfirmed = refl

no_such_work : send_work (record sender_run { work_type = pos 4 }) ≡ (none, fails)
unfolding send_work
no_such_work = refl

two_arguments :
    run
      (record { masks = true; acts = true; raises = true; asks = true })
      (bytes "signals" ∷ bytes "none" ∷ bytes "mask" ∷ [])
    ≡ ([], failure)
unfolding run
two_arguments = refl
