-- ===== src/CMemory/Copy.antt =====
-- What memcpy leaves in a buffer: lengths, reading back, and disjoint ranges.
use sysops.Common.{ℕ, zero, suc, ◌+◌, ◌≤◌, ◌≡◌, refl, ap, List, [], ◌∷◌, arith, length}
use sysops.CMemory.{write_at, read_at}

pub length-write_at : (buf : List ℕ) (o : ℕ) (xs : List ℕ) → length (write_at buf o xs) ≡ length buf
unfolding write_at
length-write_at [] o xs = refl
length-write_at (b ∷ buf) (suc o) xs = ap suc (length-write_at buf o xs)
length-write_at (b ∷ buf) zero [] = refl
length-write_at (b ∷ buf) zero (x ∷ xs) = ap suc (length-write_at buf zero xs)

pub length-read_at : (buf : List ℕ) (o n : ℕ) → o + n ≤ length buf → length (read_at buf o n) ≡ n
unfolding read_at
length-read_at buf o zero h = refl
length-read_at [] o (suc n) h = absurd (omega arith)
length-read_at (b ∷ buf) zero (suc n) h = ap suc (length-read_at buf zero n (omega arith))
length-read_at (b ∷ buf) (suc o) (suc n) h = length-read_at buf o (suc n) (omega arith)

-- Reading the written range gives the written bytes.
pub read_at-write_at_self :
    (buf : List ℕ) (o n : ℕ) (xs : List ℕ)
    → length xs ≡ n
    → o + n ≤ length buf
    → read_at (write_at buf o xs) o n ≡ xs
unfolding write_at read_at
read_at-write_at_self buf o zero [] e h = refl
read_at-write_at_self buf o zero (x ∷ xs) e h = absurd (omega arith)
read_at-write_at_self buf o (suc n) [] e h = absurd (omega arith)
read_at-write_at_self [] o (suc n) (x ∷ xs) e h = absurd (omega arith)
read_at-write_at_self (b ∷ buf) zero (suc n) (x ∷ xs) e h =
    ap (λ r. x ∷ r) (read_at-write_at_self buf zero n xs (omega arith) (omega arith))
read_at-write_at_self (b ∷ buf) (suc o) (suc n) (x ∷ xs) e h =
    read_at-write_at_self buf o (suc n) (x ∷ xs) e (omega arith)

-- A write behind the range that is read changes nothing of it.
pub read_at-write_at_after :
    (buf : List ℕ) (o p n : ℕ) (xs : List ℕ)
    → o + n ≤ p
    → read_at (write_at buf p xs) o n ≡ read_at buf o n
unfolding write_at read_at
read_at-write_at_after buf o p zero xs h = refl
read_at-write_at_after [] o p (suc n) xs h = refl
read_at-write_at_after (b ∷ buf) o zero (suc n) xs h = absurd (omega arith)
read_at-write_at_after (b ∷ buf) zero (suc p) (suc n) xs h =
    ap (λ r. b ∷ r) (read_at-write_at_after buf zero p n xs (omega arith))
read_at-write_at_after (b ∷ buf) (suc o) (suc p) (suc n) xs h =
    read_at-write_at_after buf o p (suc n) xs (omega arith)

-- Copying a whole array copies all of it.
pub read_at_whole : (xs : List ℕ) (n : ℕ) → length xs ≡ n → read_at xs 0 n ≡ xs
unfolding read_at
read_at_whole [] zero e = refl
read_at_whole [] (suc n) e = absurd (omega arith)
read_at_whole (x ∷ xs) zero e = absurd (omega arith)
read_at_whole (x ∷ xs) (suc n) e = ap (λ r. x ∷ r) (read_at_whole xs n (omega arith))

-- Once the first `k` bytes of `p` are in a buffer, ranges below `k` read as in `p`.
pub read_at-write_at_prefix :
    (buf p : List ℕ) (k o n : ℕ)
    → o + n ≤ k
    → k ≤ length p
    → k ≤ length buf
    → read_at (write_at buf 0 (read_at p 0 k)) o n ≡ read_at p o n
unfolding write_at read_at
read_at-write_at_prefix buf p k o zero h hp hb = refl
read_at-write_at_prefix buf p zero o (suc n) h hp hb = absurd (omega arith)
read_at-write_at_prefix [] p (suc k) o (suc n) h hp hb = absurd (omega arith)
read_at-write_at_prefix (b ∷ buf) [] (suc k) o (suc n) h hp hb = absurd (omega arith)
read_at-write_at_prefix (b ∷ buf) (x ∷ p) (suc k) zero (suc n) h hp hb =
    ap (λ r. x ∷ r) (read_at-write_at_prefix buf p k 0 n (omega arith) (omega arith) (omega arith))
read_at-write_at_prefix (b ∷ buf) (x ∷ p) (suc k) (suc o) (suc n) h hp hb =
    read_at-write_at_prefix buf p k o (suc n) (omega arith) (omega arith) (omega arith)

pub write_at-nil : (buffer : List ℕ) (o : ℕ) → write_at buffer o [] ≡ buffer
unfolding write_at
write_at-nil [] o = refl
write_at-nil (b ∷ buffer) zero = refl
write_at-nil (b ∷ buffer) (suc o) = ap (λ r. b ∷ r) (write_at-nil buffer o)
