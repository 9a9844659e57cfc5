-- ===== src/Reverse.antt =====
-- cw03/zad1/reverse.c: reversing a file byte by byte, and block by block.
pub mod Text
pub mod Blocks
pub mod Bytes
mod Tests
use sysops.Common.{
  loop, ℕ, zero, suc, ◌+◌, ◌-◌, ◌/◌, ◌%◌, Bool, true, false, if◌then◌else◌, ltb, ◌==◌, List, [],
  ◌∷◌, ◌++◌, get_or, set, take, drop, length, Option, none, some, not,
}

-- The body of the loop of `reverse_text`.
unfoldable pub swap_bytes : ℕ → ℕ → List ℕ → List ℕ
swap_bytes length i text =
    set (set text i (get_or text (length - i - 1) 0)) (length - i - 1) (get_or text i 0)

unfoldable pub reverse_text : List ℕ → ℕ → List ℕ
unfolding swap_bytes
reverse_text text length = loop (length / 2) 0 (swap_bytes length) text

-- `fseek(f, back, SEEK_CUR)` by `back` bytes towards the start: it fails, and leaves the position
-- alone, where that would be in front of the file.
unfoldable pub seek_back : ℕ → ℕ → ℕ
seek_back position back = if ltb position back then position else position - back

-- What the streams do in each round: whether the read fails, and how many bytes the write takes.
pub record Streams : Type 0 where
  pub read_fails : ℕ → Bool
  pub takes : ℕ → ℕ → ℕ

-- The streams of an undisturbed run.
abbrev pub healthy : Streams
healthy = record { read_fails = λ round. false; takes = λ round n. n }

-- The return value of `reverse_file` (true for 0, false for -1), and what is in `outfile`.
pub record Result : Type 0 where
  pub ok : Bool
  pub written : List ℕ

-- The loop of the block version: `fuel` bounds the rounds, `none` means that it ran out. `buf` is
-- the array from round to round; `fread` fills its front.
unfoldable pub reverse_blocks :
    ℕ → Streams → ℕ → List ℕ → ℕ → ℕ → ℕ → List ℕ → List ℕ → Option Result
unfolding reverse_text seek_back
reverse_blocks zero s block infile round position remaining buf out = none
reverse_blocks (suc fuel) s block infile round position remaining buf out =
    let chunk = take block (drop position infile) in
    let bytes_read = length chunk in
    let text = reverse_text (chunk ++ drop bytes_read buf) bytes_read in
    let written = s.takes round bytes_read in
    let rest =
      reverse_blocks fuel s block infile (round + 1)
        (seek_back (position + bytes_read) (block + bytes_read)) (remaining - bytes_read) text
        (out ++ take bytes_read text) in
    if remaining == 0
    then some (record { ok = true; written = out })
    else if s.read_fails round
    then some (record { ok = false; written = out })
    else if ltb written bytes_read
    then some (record { ok = false; written = out ++ take written text })
    else rest

-- `reverse_file` of the block version, with BLOCK_SIZE as `block` and `buf` uninitialised.
unfoldable pub reverse_file_blocks : ℕ → Streams → ℕ → List ℕ → List ℕ → Option Result
unfolding reverse_blocks
reverse_file_blocks fuel s block buf infile =
    let bytes_remaining = length infile in
    reverse_blocks fuel s block infile 0 (bytes_remaining - bytes_remaining % block) bytes_remaining
      buf []

-- The loop of the byte version, by the bytes that remain. Past the end `fgetc` gives EOF, which
-- `fputc` writes as 255.
unfoldable pub reverse_bytes : Streams → List ℕ → ℕ → ℕ → ℕ → List ℕ → Result
unfolding seek_back
reverse_bytes s infile round position zero out = record { ok = true; written = out }
reverse_bytes s infile round position (suc remaining) out =
    let rest =
      reverse_bytes s infile (round + 1) (seek_back (position + 1) 2) remaining
        (out ++ (get_or infile position 255 ∷ [])) in
    if s.read_fails round
    then record { ok = false; written = out }
    else if s.takes round 1 == 0
    then record { ok = false; written = out }
    else rest

-- `reverse_file` of the byte version: `fseek(infile, -1, SEEK_END)` fails on an empty file.
unfoldable pub reverse_file_bytes : Streams → List ℕ → Result
unfolding reverse_bytes
reverse_file_bytes s infile =
    if length infile == 0
    then record { ok = false; written = [] }
    else reverse_bytes s infile 0 (length infile - 1) (length infile) []

-- `main`, with what `fopen` gives for each of the two files (`none` for the first: it cannot be
-- opened) and the build's `reverse_file`: what is in the second file then (`none`: it was not
-- opened), and whether `main` returns EXIT_SUCCESS.
unfoldable pub main : (List ℕ → Result) → Option (List ℕ) → Bool → Option (List ℕ) × Bool
main reverse_file none opens = (none, false)
main reverse_file (some infile) opens =
    let result = reverse_file infile in
    if opens then (some result.written, result.ok) else (none, false)
