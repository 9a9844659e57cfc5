-- ===== src/Processes/Tests.antt =====
-- cw04 at concrete inputs.
use sysops.Common.{
  ℕ, ◌≡◌, ◌↔◌, refl, ◌==◌, Bool, true, false, not, none, some, [], ◌∷◌, pos, negsuc,
}
use sysops.CMemory.{bytes}
use sysops.Processes.{
  starts, waits, counts, start_children, run_processes, behind_slash, not_executed, listed, program,
  in_child, in_parent, list_directory, main,
}
use sysops.Processes.Reaping.{started, waited, run_processes-reaps}

-- The third `fork` fails.
abbrev forks : ℕ → Bool
forks i = not (i == 2)

two_run :
    run_processes (some (pos 2)) forks
    ≡ (starts ∷ starts ∷ waits ∷ waits ∷ counts (pos 2) ∷ [], true)
unfolding run_processes start_children
two_run = refl

third_fails : run_processes (some (pos 4)) forks ≡ (starts ∷ starts ∷ waits ∷ waits ∷ [], false)
unfolding run_processes start_children
third_fails = refl

none_run : run_processes (some (negsuc 4)) forks ≡ (counts (negsuc 4) ∷ [], true)
unfolding run_processes start_children
none_run = refl

lists :
    list_directory (bytes "./main") (listed 2)
    ≡ some (
      program (bytes "main")
          ∷ in_child (record { local = 1; global = 1 })
          ∷ in_parent (record { local = 0; global = 0 }) 2
          ∷ [],
      2,
    )
unfolding list_directory behind_slash
lists = refl

-- A program that is found by PATH has no slash in its name.
no_slash : list_directory (bytes "main") not_executed ≡ none
unfolding list_directory behind_slash
no_slash = refl

run_processes-reaps_example :
    (waited (run_processes (some (pos 4)) forks).0 ≡ started (run_processes (some (pos 4)) forks).0)
    × (((run_processes (some (pos 4)) forks).1 ≡ true)
        ↔ (started (run_processes (some (pos 4)) forks).0 ≡ 4))
run_processes-reaps_example = run_processes-reaps (pos 4) forks

no_argument : main (λ s. some (pos 2)) ([] ∷ []) (λ i. true) ≡ ([], false)
unfolding main
no_argument = refl
