-- ===== src/Printers/SetupTests.antt =====
-- The main functions of cw08 at concrete inputs.
use sysops.Common.{
  ℕ, zero, suc, ◌≡◌, refl, true, false, Option, none, some, ◌+◌, [], ◌∷◌, ◌++◌, pos, arith,
}
use sysops.Printers.{Semaphore, setup_printer_queue, sem_init, mutex_sem, empty_sem, full_sem}
use sysops.Printers.Setup.{
  opens, maps, unmaps, unlinks, on_semaphore, starts, kills, Calls, clean_queue, serve_queue,
  with_processes, start_processes, kill_processes, server_main, users_main,
}
use sysops.Printers.Killing.{Numbered, named, running, after}
use sysops.Printers.Children.{goes_on, printer_goes_on, usable, printer_goes_on-destroys}
use sysops.Printers.Release.{Released, server_main-Released}

-- The second `fork` fails.
abbrev forks : ℕ → Option ℕ
forks zero = some 11
forks (suc zero) = none
forks (suc (suc i)) = some 13

abbrev calls : Calls
calls = record {
  opened = true;
  truncated = true;
  mapped = true;
  mutex_set = true;
  empty_set = true;
  full_set = true;
  fork = forks;
}

server_runs : server_main (some (pos 3)) calls ≡ (
    opens
    ∷ maps
    ∷ on_semaphore (sem_init mutex_sem true)
    ∷ on_semaphore (sem_init empty_sem true)
    ∷ on_semaphore (sem_init full_sem true)
    ∷ starts 11
    ∷ starts 13
    ∷ kills 11
    ∷ kills 13
    ∷ (clean_queue ++ (unmaps ∷ unlinks ∷ [])))
unfolding server_main serve_queue setup_printer_queue with_processes start_processes kill_processes
server_runs = refl

too_many : server_main (some (pos 51)) calls ≡ []
unfolding server_main
too_many = refl

users_fail :
    users_main (some (pos 1)) (record calls { mapped = false }) ≡ (opens ∷ unlinks ∷ [], false)
unfolding users_main
users_fail = refl

forks-Numbered : Numbered forks
forks-Numbered zero pid e = ground arith
forks-Numbered (suc zero) pid e = ground arith
forks-Numbered (suc (suc i)) pid e = ground arith

server_main-Released_example : Released (server_main (some (pos 3)) calls)
server_main-Released_example = server_main-Released (some (pos 3)) calls forks-Numbered

-- The printer of the third round goes on: all its forks would be of rounds that are over.
last_goes_on : goes_on forks forks 3 2 ≡ kills 11 ∷ []
unfolding goes_on start_processes kill_processes
last_goes_on = refl

-- The printer of the first round forks for the other two, and kills what it has started.
abbrev more : ℕ → Option ℕ
more zero = none
more (suc i) = some (20 + i)

first_goes_on : goes_on forks more 3 0 ≡ starts 20 ∷ starts 21 ∷ kills 20 ∷ kills 21 ∷ []
unfolding goes_on start_processes kill_processes
first_goes_on = refl

printer_goes_on-destroys_example :
    (after (running 11) (printer_goes_on forks more 3 2) true ≡ false)
    × (after named (printer_goes_on forks more 3 2) true ≡ false)
    × ((k : Semaphore) → after (usable k) (printer_goes_on forks more 3 2) true ≡ false)
printer_goes_on-destroys_example =
    printer_goes_on-destroys forks more 3 2 0 11 (ground arith) refl (ground arith)
