-- ===== src/Chat/Text/Tokens.antt =====
-- How `strtok` cuts the text of a CLIENT_TO_ONE message.
use sysops.Common.{ℕ, zero, suc, ◌≡◌, ◌≢◌, refl, List, [], ◌∷◌, ◌++◌, some, arith, replicate}
use sysops.Chat.Text.{split_token, strtok}

-- Bytes of one token: neither NUL nor space.
abbrev pub IsWord : List ℕ → Type 0
IsWord [] = Unit {0}
IsWord (x ∷ w) = (x ≢ 0) × (x ≢ 32) × IsWord w

split_token-space : (w rest : List ℕ) → IsWord w → split_token (w ++ (32 ∷ rest)) ≡ (w, rest)
unfolding split_token
split_token-space [] rest h = refl
split_token-space (x ∷ w) rest h = ground (arith, split_token-space w rest h.2)

split_token-end : (w rest : List ℕ) → IsWord w → split_token (w ++ (0 ∷ rest)) ≡ (w, 0 ∷ rest)
unfolding split_token
split_token-end [] rest h = refl
split_token-end (x ∷ w) rest h = ground (arith, split_token-end w rest h.2)

module _ (x : ℕ) (w rest : List ℕ) (word : IsWord (x ∷ w)) where
  -- Spaces, a word, a space: the word is the token, and what follows the space is left.
  pub strtok-word :
      (spaces : ℕ) → strtok (replicate spaces 32 ++ ((x ∷ w) ++ (32 ∷ rest))) ≡ some (x ∷ w, rest)
  unfolding strtok
  strtok-word zero = ground (arith, split_token-space (x ∷ w) rest word)
  strtok-word (suc spaces) = ground (arith, strtok-word spaces)

  -- A word with nothing behind it is a token too.
  pub strtok-last :
      (spaces : ℕ)
      → strtok (replicate spaces 32 ++ ((x ∷ w) ++ (0 ∷ rest))) ≡ some (x ∷ w, 0 ∷ rest)
  unfolding strtok
  strtok-last zero = ground (arith, split_token-end (x ∷ w) rest word)
  strtok-last (suc spaces) = ground (arith, strtok-last spaces)
