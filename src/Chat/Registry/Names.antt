-- ===== src/Chat/Registry/Names.antt =====
-- The table of clients as a directory of names: what registering and deleting do to it, and that
-- no two valid clients share a name.
use sysops.Common.{
  ℕ, ◌≡◌, refl, Bool, true, false, ◌||◌, not, if◌then◌else◌, Option, none, some, List, [], ◌∷◌, ℤ,
  minus_one, arith, ◌∙◌,
}
use sysops.CMemory.{read_at, str_eq}
use sysops.CMemory.Strings.{str_eq_iff, str_eq_sym, str_eq-read_at}
use sysops.Chat.Message.{max_client_name}
use sysops.Chat.State.{Client}
use sysops.Chat.Registry.{is_named, has_name, occupy, vacate}

-- The socket of the valid client of that name.
unfoldable pub lookup : List ℕ → List Client → Option ℤ
lookup n [] = none
lookup n (c ∷ cs) = if is_named n c then some c.socket else lookup n cs

unfoldable pub has_free : List Client → Bool
has_free [] = false
has_free (c ∷ cs) = not c.valid || has_free cs

-- No two valid clients have the same name.
abbrev pub IsDistinct : List Client → Type 0
IsDistinct [] = Unit {0}
IsDistinct (c ∷ cs) = (c.valid ≡ true → has_name c.name cs ≡ false) × IsDistinct cs

pub has_name-eq-lookup :
    (n : List ℕ) (cs : List Client) → (has_name n cs ≡ false) → lookup n cs ≡ none
unfolding has_name lookup
has_name-eq-lookup n [] h = refl
has_name-eq-lookup n (c ∷ cs) h = ground (arith, has_name-eq-lookup n cs)

module _ (name : List ℕ) (socket : ℤ) (n : List ℕ) where
  abbrev same : Bool
  same = str_eq max_client_name name n

  pub lookup-occupy :
      (cs : List Client)
      → has_name name cs ≡ false
      → has_free cs ≡ true
      → lookup n (occupy name socket cs) ≡ (if same then some socket else lookup n cs)
  unfolding has_name has_free lookup occupy
  lookup-occupy [] h f = absurd (ground arith)
  lookup-occupy (c ∷ cs) h f = ground (
    arith,
    lookup-occupy cs,
    str_eq-read_at 64 name n,
    str_eq_iff 64 name n,
    str_eq_iff 64 c.name n,
    str_eq_iff 64 c.name name,
  )

  pub has_name-occupy :
      (cs : List Client)
      → same ≡ false
      → has_name n cs ≡ false
      → has_name n (occupy name socket cs) ≡ false
  unfolding has_name occupy
  has_name-occupy [] d h = refl
  has_name-occupy (c ∷ cs) d h = ground (arith, has_name-occupy cs, str_eq-read_at 64 name n)

  pub has_name-vacate :
      (cs : List Client) → has_name n cs ≡ false → has_name n (vacate name cs) ≡ false
  unfolding has_name vacate
  has_name-vacate [] h = refl
  has_name-vacate (c ∷ cs) h = ground (arith, has_name-vacate cs)

pub has_name_cong :
    (s t : List ℕ) (cs : List Client)
    → str_eq max_client_name s t ≡ true
    → has_name s cs ≡ has_name t cs
unfolding has_name
has_name_cong s t [] e = refl
has_name_cong s t (c ∷ cs) e = ground (
  arith,
  has_name_cong s t cs e,
  str_eq_iff 64 s t,
  str_eq_iff 64 c.name s,
  str_eq_iff 64 c.name t,
)

-- A full table takes nobody in.
pub occupy-full :
    (name : List ℕ) (socket : ℤ) (cs : List Client)
    → has_free cs ≡ false
    → occupy name socket cs ≡ cs
unfolding has_free occupy
occupy-full name socket [] h = refl
occupy-full name socket (c ∷ cs) h = ground (arith, occupy-full name socket cs)

has_name-read_at :
    (name : List ℕ) (cs : List Client)
    → has_name (read_at name 0 max_client_name) cs ≡ has_name name cs
unfolding has_name
has_name-read_at name [] = refl
has_name-read_at name (c ∷ cs) = ground (
  arith,
  has_name-read_at name cs,
  str_eq-read_at 64 name c.name,
  str_eq_sym 64 c.name name,
  str_eq_sym 64 c.name (read_at name 0 64),
)

pub occupy-IsDistinct :
    (name : List ℕ) (socket : ℤ) (cs : List Client)
    → has_name name cs ≡ false
    → IsDistinct cs
    → IsDistinct (occupy name socket cs)
unfolding has_name occupy
occupy-IsDistinct name socket [] h d = tt
occupy-IsDistinct name socket (c ∷ cs) h d =
    by_valid c.valid refl (λ f. occupy-IsDistinct name socket cs f d.1)
  where
    by_valid :
        (b : Bool)
        → c.valid ≡ b
        → (has_name name cs ≡ false → IsDistinct (occupy name socket cs))
        → IsDistinct (
            if not b
            then record c { valid = true; socket = socket; name = read_at name 0 max_client_name }
              ∷ cs
            else c ∷ occupy name socket cs)
    by_valid true e ih = (
      λ v.
          has_name-occupy name socket c.name cs (ground (arith, str_eq_sym 64 name c.name)) (d.0 v),
      ih (ground arith),
    )
    by_valid false e ih = (λ v. has_name-read_at name cs ∙ ground arith, d.1)

pub vacate-IsDistinct :
    (name : List ℕ) (cs : List Client) → IsDistinct cs → IsDistinct (vacate name cs)
unfolding vacate
vacate-IsDistinct name [] d = tt
vacate-IsDistinct name (c ∷ cs) d = by_name (is_named name c) (vacate-IsDistinct name cs d.1)
  where
    by_name :
        (b : Bool)
        → IsDistinct (vacate name cs)
        → IsDistinct (
            if b
            then record c { valid = false; name = 0 ∷ read_at c.name 1 63; socket = minus_one } ∷ cs
            else c ∷ vacate name cs)
    by_name true ih = (λ v. cc, d.1)
    by_name false ih = (λ v. has_name-vacate name minus_one c.name cs (d.0 v), ih)

-- Deleting a name removes it and nothing else.
pub lookup-vacate :
    (name n : List ℕ) (cs : List Client)
    → IsDistinct cs
    → lookup n (vacate name cs) ≡ (if str_eq max_client_name name n then none else lookup n cs)
unfolding has_name lookup vacate
lookup-vacate name n [] d = ground arith
lookup-vacate name n (c ∷ cs) d = ground (
  arith,
  lookup-vacate name n cs,
  has_name-eq-lookup n cs,
  has_name_cong n c.name cs,
  str_eq_sym 64 n c.name,
  str_eq_iff 64 name n,
  str_eq_iff 64 c.name n,
  str_eq_iff 64 c.name name,
)
