-- ===== src/Processes.antt =====
-- cw04: processes that start and wait for others (zad1/main.c), and a process that lists a
-- directory in another (zad2/main.c).
pub mod Reaping
mod Tests
use sysops.Common.{
  ℕ, zero, suc, ◌+◌, ◌==◌, Bool, true, false, if◌then◌else◌, Option, none, some, List, [], ◌∷◌,
  ◌++◌, replicate, ℤ, rounds_of,
}

-- What `main` of zad1 does: it starts a child, waits for one, or prints the number of processes.
pub data Act : Type 0 where
  starts waits : Act
  counts : ℤ → Act

-- The loop that forks, from round `i` on, with what follows it: when `fork` fails the children so
-- far are waited for.
unfoldable pub start_children : (ℕ → Bool) → ℕ → ℕ → List Act × Bool → List Act × Bool
start_children forks zero i behind = behind
start_children forks (suc rest) i behind =
    let (acts, ok) = start_children forks rest (i + 1) behind in
    if forks i then (starts ∷ acts, ok) else (replicate i waits, false)

-- `main` of zad1; its argument is what `strtol` made of the only argument (`none`: out of range, or
-- something behind the number).
unfoldable pub run_processes : Option ℤ → (ℕ → Bool) → List Act × Bool
unfolding start_children
run_processes none forks = ([], false)
run_processes (some n_procs) forks =
    start_children forks (rounds_of n_procs) 0
      (replicate (rounds_of n_procs) waits ++ (counts n_procs ∷ []), true)

-- `main` of zad1 with its arguments, of which there has to be one; `strtol` gives `none` where it
-- finds no number, or something behind it.
unfoldable pub main : (List ℕ → Option ℤ) → List (List ℕ) → (ℕ → Bool) → List Act × Bool
unfolding run_processes
main strtol (argv_0 ∷ argv_1 ∷ []) forks = run_processes (strtol argv_1) forks
main strtol _ forks = ([], false)

-- `strrchr(path, '/') + 1`; `none` where `strrchr` finds no slash.
unfoldable pub behind_slash : List ℕ → Option (List ℕ)
behind_slash [] = none
behind_slash (c ∷ path) =
    let rest = behind_slash path in
    elim rest [ some name ↦ some name | none ↦ if c == 47 then some path else none ]

-- What becomes of the child of zad2: `fork` fails, `execl` fails, or `ls` ends with a status.
pub data Child : Type 0 where
  not_forked not_executed : Child
  listed : ℕ → Child

-- The variables of zad2, which a fork copies.
pub record Variables : Type 0 where
  pub local : ℕ
  pub global : ℕ

-- What is printed in zad2: the name of the program, then the variables in the child and in the
-- parent, and the exit code of the child.
pub data Line : Type 0 where
  program : List ℕ → Line
  in_child : Variables → Line
  in_parent : Variables → ℕ → Line

-- The child up to `execl`.
abbrev pub count_up : Variables → Variables
count_up v = record { local = v.local + 1; global = v.global + 1 }

-- The exit code of the child, by WEXITSTATUS; `none` where there is no child.
abbrev pub exit_code : Child → Option ℕ
exit_code not_forked = none
exit_code not_executed = some 1
exit_code (listed status) = some status

-- `main` of zad2 with one argument: the lines, and what it returns. `none` is what C leaves
-- undefined.
unfoldable pub list_directory : List ℕ → Child → Option (List Line × ℕ)
unfolding behind_slash
list_directory argv_0 child =
    let v : Variables = record { local = 0; global = 0 } in
    elim (behind_slash argv_0) [
      | none ↦ none
      | some name ↦ elim (exit_code child) [
        | none ↦ some (program name ∷ [], 1)
        | some status ↦
            some (program name ∷ in_child (count_up v) ∷ in_parent v status ∷ [], status)
      ]
    ]
