-- ===== src/Signals/ExchangeTests.antt =====
-- The catcher with two senders, in three orders of their steps.
use sysops.Common.{ℕ, ◌≡◌, ◌==◌, if◌then◌else◌, refl, true, none, some, Option, List, [], ◌∷◌}
use sysops.Signals.{pausing, sig_handler, work_dispatch, work_print_n_changes}
use sysops.Signals.Requests.{confirmed}
use sysops.Signals.Exchange.{
  Event, sends, suspends, catches, suspended, succeeded, acts, begin, start_catcher,
}
use sysops.Signals.Exchange.Counting.{count}
use sysops.Signals.Exchange.Confirming.{acts-succeeded}
use sysops.Signals.Exchange.Missing.{acts-missed}

-- The processes 7 and 8.
abbrev two : ℕ → Option ℕ
two p =
    if p == 7 then some work_print_n_changes else if p == 8 then some work_print_n_changes else none

abbrev in_turn : List Event
in_turn = sends 7 ∷ suspends 7 ∷ catches ∷ sends 8 ∷ suspends 8 ∷ catches ∷ []

abbrev at_once : List Event
at_once = sends 7 ∷ sends 8 ∷ suspends 7 ∷ suspends 8 ∷ catches ∷ []

abbrev too_early : List Event
too_early = sends 7 ∷ catches ∷ suspends 7 ∷ []

both_succeed :
    (((acts in_turn (begin true two)).senders 7).point ≡ succeeded)
    × (((acts in_turn (begin true two)).senders 8).point ≡ succeeded)
    × ((acts in_turn (begin true two)).catcher ≡ pausing 2)
unfolding acts sig_handler work_dispatch start_catcher
both_succeed = (refl, refl, refl)

acts-succeeded_example :
    (((acts in_turn (begin true two)).senders 8).received ≡ 1)
    × (count 8 (confirmed (acts in_turn (begin true two)).output) ≡ 1)
unfolding acts sig_handler work_dispatch start_catcher
acts-succeeded_example = acts-succeeded true two in_turn 8 refl

-- The second signal is dropped.
acts-missed_example :
    ((acts (catches ∷ catches ∷ []) (acts at_once (begin true two))).senders 8).point ≡ suspended
unfolding acts sig_handler work_dispatch start_catcher
acts-missed_example =
    acts-missed (acts at_once (begin true two)) (catches ∷ catches ∷ []) 8 refl refl

confirmed_too_early :
    (((acts too_early (begin true two)).senders 7).point ≡ suspended)
    × (((acts too_early (begin true two)).senders 7).received ≡ 1)
unfolding acts sig_handler work_dispatch start_catcher
confirmed_too_early = (refl, refl)
