-- ===== src/Reverse/Blocks.antt =====
-- The block version of cw03/zad1/reverse.c writes the reversed file.
use sysops.Common.{
  ℕ, zero, suc, ◌+◌, ◌-◌, ◌*◌, ◌/◌, ◌%◌, ◌≤◌, ◌<◌, ◌≡◌, ◌≢◌, refl, ◌∙◌, ap, sym, true, false, ltb,
  List, [], ◌∷◌, ◌++◌, take, drop, length, length-take, length-drop, length-append, drop-drop,
  take-append-drop-length, drop_all, arith, min, some, ◌==◌, Bool-cases, inl, inr,
}
use native.Mathlib.Nat.{div-add-mod', mod-lt}
use mathlib.Core.List.{reverse, reverse-append}
use sysops.Reverse.{reverse_text, seek_back, healthy, reverse_blocks, reverse_file_blocks}
use sysops.Reverse.Text.{take-reverse_text}

module _ (block : ℕ) (infile : List ℕ) where
  -- What `fread` gives at a position, and how much.
  abbrev chunk : ℕ → List ℕ
  chunk p = take block (drop p infile)

  length-chunk : (p : ℕ) → length (chunk p) ≡ min block (length infile - p)
  length-chunk p = omega (arith, length-take block (drop p infile), length-drop p infile)

  take_front : (xs ys : List ℕ) → take (length xs) (xs ++ ys) ≡ xs
  take_front [] ys = refl
  take_front (x ∷ xs) ys = ap (λ r. x ∷ r) (take_front xs ys)

  -- The chunk at `p` is written reversed.
  written_chunk :
      (p : ℕ) (buf : List ℕ)
      → take
          (length (chunk p))
          (reverse_text (chunk p ++ drop (length (chunk p)) buf) (length (chunk p)))
        ≡ reverse (chunk p)
  written_chunk p buf =
      take-reverse_text (chunk p ++ drop (length (chunk p)) buf) (length (chunk p))
        (omega (arith, length-append (chunk p) (drop (length (chunk p)) buf)))
      ∙ ap reverse (take_front (chunk p) (drop (length (chunk p)) buf))

  one_round :
      (fuel round p remaining : ℕ) (buf out : List ℕ)
      → remaining ≡ p + length (chunk p)
      → remaining ≢ 0
      → reverse_blocks (suc fuel) healthy block infile round p remaining buf out
        ≡ reverse_blocks fuel healthy block infile
            (round + 1)
            (seek_back (p + length (chunk p)) (block + length (chunk p)))
            p
            (reverse_text (chunk p ++ drop (length (chunk p)) buf) (length (chunk p)))
            (out ++ reverse (chunk p))
  unfolding reverse_blocks
  one_round fuel round p remaining buf out e ne = rw (more, all_taken, left, written_chunk p buf)
    where
      more : (remaining == 0) ≡ false
      more = ground arith

      all_taken : ltb (length (chunk p)) (length (chunk p)) ≡ false
      all_taken = ground arith

      left : remaining - length (chunk p) ≡ p
      left = omega arith

  -- The output grows from the end of the file towards its start.
  grown :
      (p q : ℕ)
      → q ≡ p + length (chunk p)
      → reverse (drop q infile) ++ reverse (chunk p) ≡ reverse (drop p infile)
  grown p q e =
      sym (reverse-append (chunk p) (drop q infile))
      ∙ ap (λ r. reverse (chunk p ++ r)) (sym (drop-drop p (length (chunk p)) q infile (sym e)))
      ∙ ap reverse (take-append-drop-length block (drop p infile))

  at_end :
      (fuel round p remaining : ℕ) (buf out : List ℕ)
      → 0 < fuel
      → remaining ≡ 0
      → out ≡ reverse (drop remaining infile)
      → reverse_blocks fuel healthy block infile round p remaining buf out
        ≡ some (record { ok = true; written = reverse infile })
  unfolding reverse_blocks
  at_end zero round p remaining buf out f e o = absurd (omega arith)
  at_end (suc fuel) round p remaining buf out f e o =
      rw stop (λ i. some (record { ok = true; written = all i }))
    where
      stop : (remaining == 0) ≡ true
      stop = ground arith

      all : out ≡ reverse infile
      all = o ∙ ap (λ k. reverse (drop k infile)) e

  reverse_blocks_lem :
      (k fuel round p remaining : ℕ) (buf out : List ℕ)
      → 0 < block
      → k + 2 ≤ fuel
      → p ≡ k * block
      → remaining ≡ p + length (chunk p)
      → remaining ≤ length infile
      → out ≡ reverse (drop remaining infile)
      → reverse_blocks fuel healthy block infile round p remaining buf out
        ≡ some (record { ok = true; written = reverse infile })
  unfolding seek_back
  reverse_blocks_lem k zero round p remaining buf out b f e r h o = absurd (omega arith)
  reverse_blocks_lem zero (suc fuel) round p remaining buf out b f e r h o =
      elim (Bool-cases (remaining == 0)) [
        | inl stop ↦ at_end (suc fuel) round p remaining buf out (omega arith) (ground arith) o
        | inr more ↦
            one_round fuel round p remaining buf out r (ground arith)
            ∙ at_end fuel (round + 1) _ p _ _ (omega arith) (omega arith)
                (ap (λ w. w ++ reverse (chunk p)) o ∙ grown p remaining r)
      ]
  reverse_blocks_lem (suc k) (suc fuel) round p remaining buf out b f e r h o =
      one_round fuel round p remaining buf out r (omega arith)
      ∙ reverse_blocks_lem k fuel (round + 1)
          (seek_back (p + length (chunk p)) (block + length (chunk p))) p _ _ b (omega arith)
          (sought ∙ back) full (omega arith)
          (ap (λ w. w ++ reverse (chunk p)) o ∙ grown p remaining r)
    where
      back : p - block ≡ k * block
      back = omega arith

      sought : seek_back (p + length (chunk p)) (block + length (chunk p)) ≡ p - block
      sought = ground arith

      full :
          p
          ≡ seek_back (p + length (chunk p)) (block + length (chunk p))
            + length (chunk (seek_back (p + length (chunk p)) (block + length (chunk p))))
      full = rw sought (omega (arith, length-chunk (p - block)))

-- With a positive BLOCK_SIZE and working streams the block version of `reverse_file` succeeds and
-- writes the file reversed, in at most `length / BLOCK_SIZE + 2` tests of its loop, whatever the
-- array held before.
pub reverse_file_blocks_lem :
    (fuel block : ℕ) (buf infile : List ℕ)
    → 0 < block
    → length infile / block + 2 ≤ fuel
    → reverse_file_blocks fuel healthy block buf infile
      ≡ some (record { ok = true; written = reverse infile })
unfolding reverse_file_blocks
reverse_file_blocks_lem fuel block buf infile b f =
    reverse_blocks_lem block infile (length infile / block) fuel 0
      (length infile - length infile % block) (length infile) buf [] b f
      (omega (arith, div-add-mod' (length infile) block))
      (omega (
        arith,
        length-chunk block infile (length infile - length infile % block),
        mod-lt (length infile) b,
        div-add-mod' (length infile) block,
      ))
      (omega arith) (sym (ap reverse (drop_all (length infile) infile (omega arith))))
