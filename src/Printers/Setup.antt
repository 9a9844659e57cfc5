-- ===== src/Printers/Setup.antt =====
-- The main functions of cw08/printers_server.c and cw08/users_client.c around the processes that
-- they start.
use sysops.Common.{
  ℕ, zero, suc, ◌+◌, ◌==◌, ◌&&◌, Bool, true, false, if◌then◌else◌, leb, Option, none, some, List,
  [], ◌∷◌, ◌++◌, ℤ, pos, negsuc, is_positive, rounds_of,
}
use sysops.Printers.{mutex_sem, empty_sem, full_sem, SemCall, sem_destroy, setup_printer_queue}

abbrev pub max_printers : ℕ
max_printers = 50

-- What the main functions call: on the shared memory, on its semaphores, on processes.
pub data Act : Type 0 where
  opens maps unmaps unlinks : Act
  on_semaphore : SemCall → Act
  starts kills : ℕ → Act

-- What the calls give: whether `shm_open`, `ftruncate`, `mmap` and each `sem_init` work, and what
-- the parent gets from `fork` in each round (`none` for -1).
pub record Calls : Type 0 where
  pub opened : Bool
  pub truncated : Bool
  pub mapped : Bool
  pub mutex_set : Bool
  pub empty_set : Bool
  pub full_set : Bool
  pub fork : ℕ → Option ℕ

abbrev pub on_semaphores : List SemCall → List Act
on_semaphores [] = []
on_semaphores (c ∷ cs) = on_semaphore c ∷ on_semaphores cs

abbrev pub clean_queue : List Act
clean_queue =
    on_semaphores (sem_destroy mutex_sem ∷ sem_destroy empty_sem ∷ sem_destroy full_sem ∷ [])

-- The loop that forks, from round `i` on, in the parent: the children, and the entries of `pids`.
unfoldable pub start_processes : (ℕ → Option ℕ) → ℕ → ℕ → List Act × List ℕ
start_processes fork zero i = ([], [])
start_processes fork (suc rest) i =
    let (acts, pids) = start_processes fork rest (i + 1) in
    elim (fork i) [ none ↦ (acts, 0 ∷ pids) | some pid ↦ (starts pid ∷ acts, pid ∷ pids) ]

-- The loop that kills.
unfoldable pub kill_processes : List ℕ → List Act
kill_processes [] = []
kill_processes (pid ∷ pids) =
    let acts = kill_processes pids in if pid == 0 then acts else kills pid ∷ acts

-- From the start of the processes to their end.
unfoldable pub with_processes : (ℕ → Option ℕ) → ℕ → List Act
unfolding start_processes kill_processes
with_processes fork n = let (acts, pids) = start_processes fork n 0 in acts ++ kill_processes pids

-- `main` of the server behind `mmap`.
unfoldable pub serve_queue : Calls → ℕ → List Act
unfolding setup_printer_queue with_processes
serve_queue c n =
    let (calls, queue) = setup_printer_queue c.mutex_set c.empty_set c.full_set in
    on_semaphores calls
    ++ ((elim queue [ none ↦ [] | some q ↦ with_processes c.fork n ])
        ++ (clean_queue ++ (unmaps ∷ unlinks ∷ [])))

abbrev pub is_number_of_printers : ℤ → Bool
is_number_of_printers (pos n) = is_positive (pos n) && leb n max_printers
is_number_of_printers (negsuc n) = false

-- `main` of the server, which returns EXIT_FAILURE on all its paths. Its argument is what `strtol`
-- gave.
unfoldable pub server_main : Option ℤ → Calls → List Act
unfolding serve_queue
server_main none c = []
server_main (some n_printers) c =
    if is_number_of_printers n_printers
    then (if c.opened
        then opens
          ∷ (if c.truncated
              then (if c.mapped then maps ∷ serve_queue c (rounds_of n_printers) else unlinks ∷ [])
              else unlinks ∷ [])
        else [])
    else []

-- `main` of the users, with whether it returns 0.
unfoldable pub users_main : Option ℤ → Calls → List Act × Bool
unfolding with_processes
users_main none c = ([], false)
users_main (some n_users) c =
    if is_positive n_users
    then (if c.opened
        then (if c.mapped
            then (opens ∷ maps ∷ with_processes c.fork (rounds_of n_users) ++ (unmaps ∷ []), true)
            else (opens ∷ unlinks ∷ [], false))
        else ([], false))
    else ([], false)
