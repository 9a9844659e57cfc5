-- ===== src/Reverse/Bytes.antt =====
-- The byte version of cw03/zad1/reverse.c, and its agreement with the block version.
use sysops.Common.{
  ℕ, zero, suc, ◌+◌, ◌-◌, ◌/◌, ◌≤◌, ◌<◌, ◌≡◌, ◌≢◌, refl, ◌∙◌, ap, sym, true, false, List, [], ◌∷◌,
  ◌++◌, get_or, drop, drop-get_or, drop_all, length, arith, some, if◌then◌else◌, ◌==◌,
}
use mathlib.Core.List.{reverse, reverse-cons}
use sysops.Reverse.{seek_back, healthy, reverse_bytes, reverse_file_bytes, reverse_file_blocks}
use native.Mathlib.Nat.{zero-div}
use sysops.Reverse.Blocks.{reverse_file_blocks_lem}

reverse_bytes_lem :
    (infile : List ℕ) (remaining round p : ℕ) (out : List ℕ)
    → (0 < remaining → p + 1 ≡ remaining)
    → remaining ≤ length infile
    → out ≡ reverse (drop remaining infile)
    → reverse_bytes healthy infile round p remaining out
      ≡ record { ok = true; written = reverse infile }
unfolding reverse_bytes seek_back
reverse_bytes_lem infile zero round p out e h o = λ i. record { ok = true; written = o i }
reverse_bytes_lem infile (suc r) round p out e h o =
    reverse_bytes_lem infile r (round + 1) (seek_back (p + 1) 2) (out ++ (get_or infile p 255 ∷ []))
      (λ pos. ground (arith, e (omega arith))) (omega arith) grown
  where
    here : p ≡ r
    here = omega (arith, e (omega arith))

    grown : out ++ (get_or infile p 255 ∷ []) ≡ reverse (drop r infile)
    grown =
        ap (λ w. w ++ (get_or infile p 255 ∷ [])) o
        ∙ ap (λ k. reverse (drop (suc r) infile) ++ (get_or infile k 255 ∷ [])) here
        ∙ sym (reverse-cons (get_or infile r 255) (drop (suc r) infile))
        ∙ ap reverse (sym (drop-get_or r infile 255 (omega arith)))

not_empty : (n : ℕ) → (suc n == 0) ≡ false
not_empty n = ground arith

-- With working streams the byte version of `reverse_file` succeeds on a file that is not empty and
-- writes it reversed; on an empty file it fails and writes nothing.
reverse_file_bytes_lem :
    (infile : List ℕ)
    → reverse_file_bytes healthy infile ≡ (
        if length infile == 0
        then record { ok = false; written = [] }
        else record { ok = true; written = reverse infile })
unfolding reverse_file_bytes
reverse_file_bytes_lem [] = refl
reverse_file_bytes_lem (x ∷ xs) = rw (not_empty (length xs)) (
    reverse_bytes_lem (x ∷ xs) (suc (length xs)) 0 (suc (length xs) - 1) [] (λ h. omega arith)
      (omega arith) (sym (ap reverse (drop_all (suc (length xs)) (x ∷ xs) (omega arith)))))

-- The two builds of the program agree on every file that is not empty, for every positive
-- BLOCK_SIZE.
reverse_file_blocks-reverse_file_bytes :
    (fuel block : ℕ) (buf infile : List ℕ)
    → 0 < block
    → length infile / block + 2 ≤ fuel
    → infile ≢ []
    → reverse_file_blocks fuel healthy block buf infile ≡ some (reverse_file_bytes healthy infile)
reverse_file_blocks-reverse_file_bytes fuel block buf [] b f ne = absurd (ne refl)
reverse_file_blocks-reverse_file_bytes fuel block buf (x ∷ xs) b f ne =
    reverse_file_blocks_lem fuel block buf (x ∷ xs) b f
    ∙ ap some (sym (rw (not_empty (length xs)) at (reverse_file_bytes_lem (x ∷ xs))))

-- On the empty file they disagree: the block version succeeds with an empty result, and the byte
-- version fails.
reverse_file_empty :
    (fuel block : ℕ) (buf : List ℕ)
    → 0 < block
    → 2 ≤ fuel
    → (reverse_file_blocks fuel healthy block buf [] ≡ some (record { ok = true; written = [] }))
      × (reverse_file_bytes healthy [] ≡ record { ok = false; written = [] })
reverse_file_empty fuel block buf b f = (
  reverse_file_blocks_lem fuel block buf [] b (omega (arith, zero-div block)),
  reverse_file_bytes_lem [],
)
