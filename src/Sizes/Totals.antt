-- ===== src/Sizes/Totals.antt =====
-- The total that cw03/zad2 prints.
use sysops.Common.{
  ℕ, ◌+◌, ◌≡◌, refl, ◌∙◌, ap, sym, true, if◌then◌else◌, Option, none, some, List, [], ◌∷◌,
  Bool-cases, inl, inr, arith,
}
use mathlib.Core.List.{Perm, foldr}
use mathlib.Core.List.Perm
use sysops.Sizes.{FileInfo, Entry, Line, file, total_size, add_sizes, traverse_directory}

-- The total that is printed, when it is.
abbrev pub total_of : List Line → Option ℕ
total_of [] = none
total_of (file name size ∷ lines) = total_of lines
total_of (total_size n ∷ lines) = some n

abbrev pub counted : FileInfo → ℕ
counted i = if i.is_directory then 0 else i.size

-- A total with the size of one more entry; `none` once `stat` fails.
abbrev pub add_entry : Entry → Option ℕ → Option ℕ
add_entry e none = none
add_entry e (some n) = elim e.info [ none ↦ none | some i ↦ some (counted i + n) ]

-- The sum of the sizes of the entries that are no directories, when `stat` works on all of them.
abbrev pub sum_of : List Entry → Option ℕ
sum_of es = foldr add_entry (some 0) es

-- The same sum behind a value added up before.
abbrev on_top : ℕ → Option ℕ → Option ℕ
on_top n none = none
on_top n (some k) = some (n + k)

info_swap :
    (a b : Option FileInfo) (x y : List ℕ) (t : Option ℕ)
    → add_entry (record { name = x; info = a }) (add_entry (record { name = y; info = b }) t)
      ≡ add_entry (record { name = y; info = b }) (add_entry (record { name = x; info = a }) t)
info_swap a b x y none = refl
info_swap none none x y (some n) = refl
info_swap none (some j) x y (some n) = refl
info_swap (some i) none x y (some n) = refl
info_swap (some i) (some j) x y (some n) = ap some (omega arith)

perm-sum_of : (xs ys : List Entry) → Perm xs ys → sum_of xs ≡ sum_of ys
perm-sum_of xs ys p =
    Perm.foldr-eq (hlevel) add_entry (λ a b t. info_swap a.info b.info a.name b.name t) p (some 0)

none_counts : (x : List ℕ) (t : Option ℕ) → add_entry (record { name = x; info = none }) t ≡ none
none_counts x none = refl
none_counts x (some n) = refl

one_counts :
    (x : List ℕ) (i : FileInfo) (n : ℕ) (t : Option ℕ)
    → on_top n (add_entry (record { name = x; info = some i }) t) ≡ on_top (n + counted i) t
one_counts x i n none = refl
one_counts x i n (some k) = ap some (omega arith)

-- One more entry, with what the loop makes of the rest.
add_sizes-cons :
    (x : List ℕ) (o : Option FileInfo) (es : List Entry) (n : ℕ)
    → ((m : ℕ) → total_of (add_sizes es m).0 ≡ on_top m (sum_of es))
    → total_of (add_sizes (record { name = x; info = o } ∷ es) n).0
      ≡ on_top n (add_entry (record { name = x; info = o }) (sum_of es))
unfolding add_sizes
add_sizes-cons x none es n rest = ap (on_top n) (sym (none_counts x (sum_of es)))
add_sizes-cons x (some i) es n rest = elim (Bool-cases i.is_directory) [
  | inl d ↦
      let same : n + counted i ≡ n = ap (λ b. n + (if b then 0 else i.size)) d ∙ (omega arith) in
      rw (add_sizes, d) (rest n)
      ∙ ap (λ m. on_top m (sum_of es)) (sym same)
      ∙ sym (one_counts x i n (sum_of es))
  | inr d ↦
      let same : n + counted i ≡ n + i.size = ap (λ b. n + (if b then 0 else i.size)) d in
      rw (add_sizes, d) (rest (n + i.size))
      ∙ ap (λ m. on_top m (sum_of es)) (sym same)
      ∙ sym (one_counts x i n (sum_of es))
]

add_sizes-sum_of : (es : List Entry) (n : ℕ) → total_of (add_sizes es n).0 ≡ on_top n (sum_of es)
unfolding add_sizes
add_sizes-sum_of [] n = ap some (omega arith)
add_sizes-sum_of (e ∷ es) n = add_sizes-cons e.name e.info es n (λ m. add_sizes-sum_of es m)

-- Whatever the order in which `readdir` gives the entries of a directory that can be entered: the
-- total that `traverse_directory` prints is the sum of the sizes of the entries that are no
-- directories, and none is printed when `stat` fails on one of them.
pub traverse_directory-perm :
    (xs ys : List Entry)
    → Perm xs ys
    → (total_of (traverse_directory true xs).0 ≡ sum_of xs)
      × (total_of (traverse_directory true ys).0 ≡ sum_of xs)
unfolding traverse_directory
traverse_directory-perm xs ys p = (
  add_sizes-sum_of xs 0 ∙ on_zero (sum_of xs),
  add_sizes-sum_of ys 0 ∙ on_zero (sum_of ys) ∙ sym (perm-sum_of xs ys p),
)
  where
    on_zero : (t : Option ℕ) → on_top 0 t ≡ t
    on_zero none = refl
    on_zero (some k) = ap some (omega arith)
