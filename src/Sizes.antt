-- ===== src/Sizes.antt =====
-- cw03/zad2/main.c: the total size of the files of a directory.
pub mod Totals
mod Tests
use sysops.Common.{ℕ, ◌+◌, Bool, true, false, if◌then◌else◌, Option, none, some, List, [], ◌∷◌}

-- A file as `stat` describes it.
pub record FileInfo : Type 0 where
  pub is_directory : Bool
  pub size : ℕ

-- An entry that `readdir` gives; `none` where `stat` fails on it.
pub record Entry : Type 0 where
  pub name : List ℕ
  pub info : Option FileInfo

-- A line that is printed.
pub data Line : Type 0 where
  file : List ℕ → ℕ → Line
  total_size : ℕ → Line

-- The loop of `traverse_directory`, with what it has added up: its lines, and whether it returns 0.
unfoldable pub add_sizes : List Entry → ℕ → List Line × Bool
add_sizes [] all_files_size = (total_size all_files_size ∷ [], true)
add_sizes (e ∷ es) all_files_size = elim e.info [
  | none ↦ ([], false)
  | some i ↦
      if i.is_directory
      then add_sizes es all_files_size
      else (let (lines, ok) = add_sizes es (all_files_size + i.size) in
          (file e.name i.size ∷ lines, ok))
]

-- `traverse_directory`; `enters` says whether `chdir` works.
unfoldable pub traverse_directory : Bool → List Entry → List Line × Bool
unfolding add_sizes
traverse_directory enters entries = if enters then add_sizes entries 0 else ([], false)

-- `main` with one argument at most: its lines, and whether it returns EXIT_SUCCESS, which does not
-- hang on the traversal. `none` is an `opendir` that fails.
unfoldable pub main : Option (Bool × List Entry) → List Line × Bool
unfolding traverse_directory
main none = ([], false)
main (some (enters, entries)) = ((traverse_directory enters entries).0, true)

-- The directory that `main` opens, by its arguments: `.` where there is none.
unfoldable pub dirpath_of : List (List ℕ) → Option (List ℕ)
dirpath_of (argv_0 ∷ []) = some (46 ∷ [])
dirpath_of (argv_0 ∷ argv_1 ∷ []) = some argv_1
dirpath_of _ = none

-- `main` with its arguments, and what `opendir` and `readdir` find at a path.
unfoldable pub run : (List ℕ → Option (Bool × List Entry)) → List (List ℕ) → List Line × Bool
unfolding dirpath_of
run opendir argv = elim (dirpath_of argv) [
  | none ↦ ([], false)
  | some dirpath ↦ main (opendir dirpath)
]
