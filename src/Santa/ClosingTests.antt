-- ===== src/Santa/ClosingTests.antt =====
-- Whole runs of cw10, and the theorems on them.
use sysops.Common.{true, ◌-◌, ◌+◌, ◌<◌, ◌≤◌, ◌≡◌, ◌⊎◌, refl, replicate, length}
use sysops.Santa.{reindeer_count, waiting, reindeer_step, santa_step}
use sysops.Santa.Program.{
  returned, storing, created, stored, cancel_step, has_returned, stop, main_step,
}
use sysops.Santa.Schedule.{all_work, at_cancel, at_destroy, at_return}
use sysops.Santa.Closing.Ending.{cancel_step-created, destroying-waiting}
use sysops.Santa.Closing.Going.{CanTurn}
use sysops.Santa.Measure.{Runs-ends}

-- `main` returns, and one of the reindeer has ended with the mutex.
whole_run :
    (at_return.last.main ≡ returned)
    × (at_return.last.workshop.shared.mutex ≡ 0)
    × (length at_return.last.gone ≡ 1)
unfolding at_return reindeer_step santa_step main_step stop cancel_step has_returned
whole_run = (refl, refl, refl)

cancel_step-created_example :
    (at_cancel.last.cancelled < created at_cancel.last.main)
    × (all_work.reindeer at_cancel.last.cancelled ≡ true)
    × (at_cancel.last.workshop.reindeer ≡ replicate reindeer_count waiting)
    × ((at_cancel.last.cancelled < stored at_cancel.last.main)
        ⊎ ((at_cancel.last.main ≡ storing at_cancel.last.cancelled)
            × (at_cancel.last.cancelled ≡ reindeer_count - 1)))
unfolding at_cancel reindeer_step santa_step main_step stop cancel_step has_returned
cancel_step-created_example =
    cancel_step-created all_work at_cancel.steps 2 at_cancel.last at_cancel.reach refl

destroying-waiting_example :
    (at_destroy.last.workshop.reindeer ≡ replicate reindeer_count waiting)
    × (at_destroy.last.workshop.shared.mutex + length at_destroy.last.gone ≡ 1)
unfolding at_destroy reindeer_step santa_step main_step stop cancel_step has_returned
destroying-waiting_example =
    destroying-waiting all_work at_destroy.steps at_destroy.last at_destroy.reach refl

Runs-ends_example :
    (at_cancel.steps ≤ 867) × ((at_cancel.last.main ≡ returned) ⊎ CanTurn at_cancel.last)
Runs-ends_example =
    Runs-ends all_work at_cancel.steps at_cancel.last (refl, λ i h. refl) at_cancel.reach
