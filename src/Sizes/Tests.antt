-- ===== src/Sizes/Tests.antt =====
-- A small directory of cw03/zad2.
use sysops.Common.{◌≡◌, refl, true, false, some, none, [], ◌∷◌}
use mathlib.Core.List.Perm
use sysops.CMemory.{bytes}
use sysops.Sizes.{Entry, file, total_size, add_sizes, traverse_directory, main, run}
use sysops.Sizes.Totals.{total_of, sum_of, traverse_directory-perm}

abbrev here : Entry
here = record { name = bytes "."; info = some (record { is_directory = true; size = 4096 }) }

abbrev notes : Entry
notes = record { name = bytes "a"; info = some (record { is_directory = false; size = 12 }) }

abbrev code : Entry
code = record { name = bytes "b"; info = some (record { is_directory = false; size = 30 }) }

-- A symbolic link that leads nowhere.
abbrev dangling : Entry
dangling = record { name = bytes "c"; info = none }

sums :
    main (some (true, here ∷ notes ∷ code ∷ []))
    ≡ (file (bytes "a") 12 ∷ file (bytes "b") 30 ∷ total_size 42 ∷ [], true)
unfolding main traverse_directory add_sizes
sums = refl

stops_at_link : main (some (true, notes ∷ dangling ∷ code ∷ [])) ≡ (file (bytes "a") 12 ∷ [], true)
unfolding main traverse_directory add_sizes
stops_at_link = refl

no_argument :
    run (λ dirpath. some (true, notes ∷ [])) (bytes "sizes" ∷ [])
    ≡ (file (bytes "a") 12 ∷ total_size 12 ∷ [], true)
unfolding run main traverse_directory add_sizes
no_argument = refl

two_arguments :
    run (λ dirpath. some (true, notes ∷ [])) (bytes "sizes" ∷ bytes "a" ∷ bytes "b" ∷ [])
    ≡ ([], false)
unfolding run
two_arguments = refl

traverse_directory-perm_example :
    (total_of (traverse_directory true (here ∷ notes ∷ [])).0 ≡ sum_of (here ∷ notes ∷ []))
    × (total_of (traverse_directory true (notes ∷ here ∷ [])).0 ≡ sum_of (here ∷ notes ∷ []))
traverse_directory-perm_example =
    traverse_directory-perm (here ∷ notes ∷ []) (notes ∷ here ∷ []) (Perm.swap notes here [])
