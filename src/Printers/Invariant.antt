-- ===== src/Printers/Invariant.antt =====
-- The invariant of the queue of cw08 and the processes that share it.
use sysops.Common.{total, ◌+◌, ◌%◌, ◌<◌, ◌≡◌, List, ◌++◌, length}
use sysops.Printers.{Job, PrintQueue, max_jobs, Process, Event}
use sysops.Printers.Steps.{puts, takes}
use sysops.Printers.Weights.{has_mutex, has_job, has_slot, AllKnow}
use sysops.Printers.Ring.{Holds}

-- The invariant of a queue with its processes, when `seen` has happened.
pub record Inv (ps : List Process) (q : PrintQueue) (seen : List Event) : Type 0 where
  pub waiting : List Job
  pub order : puts seen ≡ takes seen ++ waiting
  pub lock : q.mutex + total has_mutex ps ≡ 1
  pub jobs_posted : q.full + total has_job ps ≡ length waiting
  pub slots_free : q.empty + total has_slot ps + length waiting ≡ max_jobs
  pub size : length q.jobs ≡ max_jobs
  pub head_inside : q.head < max_jobs
  pub tail_behind : q.tail ≡ (q.head + length waiting) % max_jobs
  pub ring : Holds q.jobs q.head waiting
  pub know : AllKnow q ps
