-- ===== src/Reverse/Tests.antt =====
-- Small files, and the theorems at concrete inputs.
use sysops.Common.{ℕ, ◌≡◌, refl, true, false, if◌then◌else◌, ◌==◌, List, [], ◌∷◌, some, loop, arith}
use mathlib.Core.List.{reverse}
use sysops.Reverse.{main, healthy, Streams, reverse_text, reverse_file_blocks, reverse_file_bytes}
use sysops.Reverse.Blocks.{reverse_file_blocks_lem}

abbrev file : List ℕ
file = 1 ∷ 2 ∷ 3 ∷ 4 ∷ 5 ∷ 6 ∷ 7 ∷ []

text_runs : reverse_text (1 ∷ 2 ∷ 3 ∷ 4 ∷ 5 ∷ 9 ∷ 9 ∷ []) 5 ≡ 5 ∷ 4 ∷ 3 ∷ 2 ∷ 1 ∷ 9 ∷ 9 ∷ []
unfolding reverse_text loop
text_runs = refl

blocks_run :
    reverse_file_blocks 9 healthy 3 (0 ∷ 0 ∷ 0 ∷ []) file
    ≡ some (record { ok = true; written = 7 ∷ 6 ∷ 5 ∷ 4 ∷ 3 ∷ 2 ∷ 1 ∷ [] })
unfolding reverse_file_blocks loop
blocks_run = refl

-- The second write takes one byte of three.
short_write : Streams
short_write = record { read_fails = λ round. false; takes = λ round n. if round == 1 then 1 else n }

short_write_stops :
    reverse_file_blocks 9 short_write 3 (0 ∷ 0 ∷ 0 ∷ []) file
    ≡ some (record { ok = false; written = 7 ∷ 6 ∷ [] })
unfolding reverse_file_blocks loop short_write
short_write_stops = refl

reverse_file_blocks_lem_example :
    reverse_file_blocks 4 healthy 3 (0 ∷ 0 ∷ 0 ∷ []) file
    ≡ some (record { ok = true; written = reverse file })
reverse_file_blocks_lem_example =
    reverse_file_blocks_lem 4 3 (0 ∷ 0 ∷ 0 ∷ []) file (omega arith) (omega arith)

main_runs : main (reverse_file_bytes healthy) (some file) true ≡ (some (reverse file), true)
unfolding main reverse_file_bytes
main_runs = refl

main_on_empty : main (reverse_file_bytes healthy) (some []) true ≡ (some [], false)
unfolding main reverse_file_bytes
main_on_empty = refl
