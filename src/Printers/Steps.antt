-- ===== src/Printers/Steps.antt =====
-- The loops of `user_process` and `printer_process` of cw08, one access to the shared memory at a
-- time, and the processes that take such steps in any order.
use sysops.Common.{
  ℕ, ◌+◌, ◌-◌, ◌%◌, ◌==◌, ◌≡◌, Bool, true, false, if◌then◌else◌, Option, none, some, List, [], ◌∷◌,
  ◌++◌, set, take,
}
use sysops.Printers.{
  Job, PrintQueue, job_at, max_jobs, printer_buffer_size, generate_random_text, Process, ready,
  posting_full, posting_mutex, user_done, wants_slot, wants_queue, writing, moving_tail, idle,
  wants_job, got_job, reading, printer_done, moving_head, unlocking, freeing, printing, Event, put,
  took, printed, killed,
}

-- A process behind a step, the queue, and what was seen; `none`: it waits.
abbrev pub Outcome : Type 0
Outcome = Option (Process × PrintQueue × List Event)

-- A step of `user_process`, with the value of `keep_running` and the numbers of `rand`.
unfoldable pub user_step : Bool → (ℕ → ℕ) → Process → PrintQueue → Outcome
unfolding generate_random_text
user_step keep_running rand ready q =
    if keep_running
    then some (wants_slot (generate_random_text rand printer_buffer_size), q, [])
    else some (user_done, q, [])
user_step keep_running rand (wants_slot buf) q =
    if q.empty == 0 then none else some (wants_queue buf, record q { empty = q.empty - 1 }, [])
user_step keep_running rand (wants_queue buf) q =
    if q.mutex == 0 then none else some (writing buf, record q { mutex = q.mutex - 1 }, [])
user_step keep_running rand (writing buf) q =
    some (moving_tail buf, record q { jobs = set q.jobs q.tail buf }, [])
user_step keep_running rand (moving_tail buf) q =
    some (posting_full, record q { tail = (q.tail + 1) % max_jobs }, put buf ∷ [])
user_step keep_running rand posting_full q =
    some (posting_mutex, record q { full = q.full + 1 }, [])
user_step keep_running rand posting_mutex q = some (ready, record q { mutex = q.mutex + 1 }, [])
user_step keep_running rand _ q = none

-- A step of `printer_process`.
unfoldable pub printer_step : Bool → Process → PrintQueue → Outcome
printer_step keep_running idle q =
    if keep_running then some (wants_job, q, []) else some (printer_done, q, [])
printer_step keep_running wants_job q =
    if q.full == 0 then none else some (got_job, record q { full = q.full - 1 }, [])
printer_step keep_running got_job q =
    if q.mutex == 0 then none else some (reading, record q { mutex = q.mutex - 1 }, [])
printer_step keep_running reading q = some (moving_head (job_at q.jobs q.head), q, [])
printer_step keep_running (moving_head job) q =
    some (unlocking job, record q { head = (q.head + 1) % max_jobs }, took job ∷ [])
printer_step keep_running (unlocking job) q =
    some (freeing job, record q { mutex = q.mutex + 1 }, [])
printer_step keep_running (freeing job) q =
    some (printing job, record q { empty = q.empty + 1 }, [])
printer_step keep_running (printing job) q =
    some (idle, q, printed (take (printer_buffer_size - 1) job) ∷ [])
printer_step keep_running _ q = none

abbrev pub is_user : Process → Bool
is_user ready = true
is_user posting_full = true
is_user posting_mutex = true
is_user user_done = true
is_user (wants_slot buf) = true
is_user (wants_queue buf) = true
is_user (writing buf) = true
is_user (moving_tail buf) = true
is_user (killed p) = false
is_user _ = false

-- A step in a loop. A process whose loop has ended has none: `Kill` and `Fork` say what it does
-- then.
unfoldable pub step : Bool → (ℕ → ℕ) → Process → PrintQueue → Outcome
unfolding user_step printer_step
step keep_running rand p q =
    if is_user p then user_step keep_running rand p q else printer_step keep_running p q

-- The queue and the processes that share it.
pub record System : Type 0 where
  pub queue : PrintQueue
  pub processes : List Process

-- One of the processes takes a step.
pub record Step (s : System) (seen : List Event) (t : System) : Type 0 where
  pub before : List Process
  pub after : List Process
  pub process : Process
  pub moved : Process
  pub keep_running : Bool
  pub rand : ℕ → ℕ
  pub from : s.processes ≡ before ++ (process ∷ after)
  pub to : t.processes ≡ before ++ (moved ∷ after)
  pub moves : step keep_running rand process s.queue ≡ some (moved, t.queue, seen)

-- In front of its loop. A process whose loop has ended is in `main` again, where it forks and
-- kills, as the process that runs `main` from the start does.
abbrev pub started_as : Process → Bool
started_as ready = true
started_as idle = true
started_as _ = false

-- A process is killed where it stands, at any time.
pub record Kill (s t : System) : Type 0 where
  pub before : List Process
  pub after : List Process
  pub process : Process
  pub from : s.processes ≡ before ++ (process ∷ after)
  pub to : t.processes ≡ before ++ (killed process ∷ after)
  pub queue : t.queue ≡ s.queue

-- A process in `main` forks: one more user or printer starts its loop.
pub record Fork (s t : System) : Type 0 where
  pub process : Process
  pub starts : started_as process ≡ true
  pub to : t.processes ≡ process ∷ s.processes
  pub queue : t.queue ≡ s.queue

-- Steps in any order, and all that was seen. A printer that is in `main` at last destroys the
-- semaphores; behind that their use is undefined, so that a run ends there.
pub data Reaches (s : System) : List Event → System → Type 0 where
  here : Reaches s [] s
  then_step :
      (seen more : List Event) (t u : System)
      → Reaches s seen t
      → Step t more u
      → Reaches s (seen ++ more) u
  then_kill : (seen : List Event) (t u : System) → Reaches s seen t → Kill t u → Reaches s seen u
  then_fork : (seen : List Event) (t u : System) → Reaches s seen t → Fork t u → Reaches s seen u

-- The jobs that went in.
unfoldable pub puts : List Event → List Job
puts [] = []
puts (put job ∷ es) = job ∷ puts es
puts (took job ∷ es) = puts es
puts (printed job ∷ es) = puts es

-- The jobs that came out.
unfoldable pub takes : List Event → List Job
takes [] = []
takes (put job ∷ es) = takes es
takes (took job ∷ es) = job ∷ takes es
takes (printed job ∷ es) = takes es
