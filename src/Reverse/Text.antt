-- ===== src/Reverse/Text.antt =====
-- `reverse_text` of cw03/zad1/reverse.c reverses the front of its array in place.
use sysops.Common.{
  loop_keeps, Bool-cases, inl, inr, ◌==◌, ℕ, suc, ◌+◌, ◌-◌, ◌/◌, ◌≤◌, ◌<◌, ◌≡◌, refl, ◌∙◌, ap, sym,
  ◌&&◌, ◌||◌, leb, ltb, if◌then◌else◌, List, get_or, set, take, length, length-set, length-take,
  length-reverse, get_or-set, get_or-take, get_or-reverse, list_ext, arith,
}
use mathlib.Core.List.{reverse}
use sysops.Reverse.{swap_bytes, reverse_text}

-- The element that stands at `j` once `i` pairs are swapped.
abbrev mirrored : List ℕ → ℕ → ℕ → ℕ → ℕ
mirrored text n i j =
    if ltb j n && (ltb j i || leb (n - i) j) then get_or text (n - 1 - j) 0 else get_or text j 0

record Swapped (text : List ℕ) (n i : ℕ) (now : List ℕ) : Type 0 where
  size : length now ≡ length text
  element : (j : ℕ) → j < length text → get_or now j 0 ≡ mirrored text n i j

swap_bytes-Swapped :
    (text : List ℕ) (n i r : ℕ) (now : List ℕ)
    → n ≤ length text
    → i + suc r ≡ n / 2
    → Swapped text n i now
    → Swapped text n (suc i) (swap_bytes n i now)
unfolding swap_bytes
swap_bytes-Swapped text n i r now h e v = record {
  size = length-set _ _ _ ∙ length-set _ _ _ ∙ v.size;
  element = λ j p. ground (
    arith,
    v.size,
    v.element j p,
    v.element i,
    v.element (n - i - 1),
    length-set now i (get_or now (n - i - 1) 0),
    get_or-set now i j (get_or now (n - i - 1) 0) 0,
    get_or-set (set now i (get_or now (n - i - 1) 0)) (n - i - 1) j (get_or now i 0) 0,
  );
}

reverse_text-Swapped :
    (text : List ℕ) (n : ℕ) → n ≤ length text → Swapped text n (n / 2) (reverse_text text n)
unfolding reverse_text
reverse_text-Swapped text n h =
    loop_keeps (Swapped text n) (n / 2) (swap_bytes n)
      (λ i r now e v. swap_bytes-Swapped text n i r now h e v) (n / 2) 0 text (omega arith)
      (record { size = refl; element = λ j p. ground arith })

-- For a length within the array, `reverse_text` keeps the size of the array, reverses its first
-- `length` bytes in place, and leaves the bytes behind them alone.
reverse_text_lem :
    (text : List ℕ) (n j : ℕ)
    → n ≤ length text
    → j < length text
    → (length (reverse_text text n) ≡ length text)
      × (get_or (reverse_text text n) j 0
          ≡ (if ltb j n then get_or text (n - 1 - j) 0 else get_or text j 0))
reverse_text_lem text n j h p = (
  v.size,
  v.element j p ∙ elim (Bool-cases (j + j + 1 == n)) [
    | inl middle ↦
        let same : n - 1 - j ≡ j = ground arith in
        let both : get_or text (n - 1 - j) 0 ≡ get_or text j 0 = ap (λ k. get_or text k 0) same in
        ground arith
    | inr other ↦ ground arith
  ],
)
  where
    v : Swapped text n (n / 2) (reverse_text text n)
    v = reverse_text-Swapped text n h

-- The front of the array, as a list.
pub take-reverse_text :
    (text : List ℕ) (n : ℕ) → n ≤ length text → take n (reverse_text text n) ≡ reverse (take n text)
take-reverse_text text n h =
    list_ext _ _
      (omega (
        arith,
        length-take n (reverse_text text n),
        length-reverse (take n text),
        length-take n text,
        (reverse_text-Swapped text n h).size,
      ))
      (λ j p.
        let q : j < n = omega (arith, length-take n (reverse_text text n)) in
        let m : length (take n text) - 1 - j ≡ n - 1 - j = omega (arith, length-take n text) in
        get_or-take n (reverse_text text n) j 0 q
        ∙ (reverse_text_lem text n j h (omega arith)).1
        ∙ (ground (arith, get_or-take n text (n - 1 - j) 0))
        ∙ ap (λ k. get_or (take n text) k 0) (sym m)
        ∙ sym (get_or-reverse (take n text) j 0 (omega (arith, length-take n text))))
