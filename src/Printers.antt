-- ===== src/Printers.antt =====
-- cw08: printers and users that share a circular queue of jobs in shared memory
-- (shared_memory_spec.h, printers_server.c, users_client.c).
pub mod Steps
pub mod Weights
pub mod Seen
pub mod Invariant
pub mod Moves
pub mod Order
pub mod Progress
pub mod Runs
pub mod Ring
pub mod Setup
pub mod Killing
pub mod Release
pub mod Children
mod SetupTests
mod Tests
use sysops.Common.{
  ℕ, zero, suc, ◌+◌, ◌-◌, ◌%◌, ◌==◌, Bool, true, false, if◌then◌else◌, Option, none, some, List, [],
  ◌∷◌, ◌++◌, get_or, replicate,
}

abbrev pub printer_buffer_size : ℕ
printer_buffer_size = 3

abbrev pub max_jobs : ℕ
max_jobs = 10

abbrev pub Job : Type 0
Job = List ℕ

-- `print_queue_t`; a semaphore is its value.
pub record PrintQueue : Type 0 where
  pub jobs : List Job
  pub head : ℕ
  pub tail : ℕ
  pub mutex : ℕ
  pub empty : ℕ
  pub full : ℕ

abbrev pub job_at : List Job → ℕ → Job
job_at jobs i = get_or jobs i []

-- What `setup_printer_queue` calls on the semaphores; `true` in `sem_init` says that it worked.
pub data Semaphore : Type 0 where
  mutex_sem empty_sem full_sem : Semaphore

pub data SemCall : Type 0 where
  sem_init : Semaphore → Bool → SemCall
  sem_destroy : Semaphore → SemCall

abbrev pub fresh_queue : PrintQueue
fresh_queue = record {
  jobs = replicate max_jobs (replicate printer_buffer_size 0);
  head = 0;
  tail = 0;
  mutex = 1;
  empty = max_jobs;
  full = 0;
}

-- `setup_printer_queue`, with what the three calls of `sem_init` return; `none` is the result -1.
unfoldable pub setup_printer_queue : Bool → Bool → Bool → List SemCall × Option PrintQueue
setup_printer_queue false b c = (sem_init mutex_sem false ∷ [], none)
setup_printer_queue true false c =
    (sem_init mutex_sem true ∷ sem_init empty_sem false ∷ sem_destroy mutex_sem ∷ [], none)
setup_printer_queue true true false = (
  sem_init mutex_sem true
      ∷ sem_init empty_sem true
      ∷ sem_init full_sem false
      ∷ sem_destroy mutex_sem
      ∷ sem_destroy empty_sem
      ∷ [],
  none,
)
setup_printer_queue true true true = (
  sem_init mutex_sem true ∷ sem_init empty_sem true ∷ sem_init full_sem true ∷ [],
  some fresh_queue,
)

-- The loop of `generate_random_text`, from byte `i` on, over the numbers that `rand` returns.
unfoldable pub random_letters : (ℕ → ℕ) → ℕ → ℕ → List ℕ
random_letters rand i zero = []
random_letters rand i (suc n) = (97 + rand i % 26) ∷ random_letters rand (i + 1) n

unfoldable pub generate_random_text : (ℕ → ℕ) → ℕ → List ℕ
unfolding random_letters
generate_random_text rand size = random_letters rand 0 (size - 1) ++ (0 ∷ [])

-- Where a process stands: in `user_process` up to `user_done`, in `printer_process` from `idle` on.
-- It carries its local `buf` or `job` where that is still used. In `user_done` and `printer_done`
-- the loop has ended and the process is in `main` again; a killed process keeps what it held.
pub data Process : Type 0 where
  ready posting_full posting_mutex user_done : Process
  wants_slot wants_queue writing moving_tail : Job → Process
  idle wants_job got_job reading printer_done : Process
  moving_head unlocking freeing printing : Job → Process
  killed : Process → Process

-- What can be seen of the queue: a job goes in, a job comes out, bytes are printed.
pub data Event : Type 0 where
  put took printed : Job → Event
