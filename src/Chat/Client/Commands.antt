-- ===== src/Chat/Client/Commands.antt =====
-- The commands of cw11/client.c, and how the server reads what they send.
use sysops.Common.{
  length-append, ℕ, zero, suc, ◌+◌, ◌-◌, ◌<◌, ◌≡◌, ◌==◌, refl, ◌∙◌, ap, false, none, some, List, [],
  ◌∷◌, ◌++◌, append_assoc, replicate, length-replicate, length, arith,
}
use sysops.CMemory.{str_eq}
use sysops.CMemory.Lines.{IsLine, IsLine-append, length-line, set_last}
use sysops.Chat.Message.{client_to_one, client_to_all, max_message_text}
use sysops.Chat.Text.{bytes, strtok, strtok_rest, split_token, start_token, skip_spaces}
use sysops.Chat.Text.Tokens.{IsWord, strtok-word}
use sysops.Chat.Client.{ClientEnv, tells, faults, cut_newline, choose, choose_token, read_command}

-- A line that `fgets` has read whole loses its newline.
cut_newline_lem :
    (s rest : List ℕ)
    → IsLine s
    → length s + 1 < max_message_text
    → cut_newline (s ++ (10 ∷ 0 ∷ rest)) ≡ some (s ++ (0 ∷ 0 ∷ rest))
unfolding cut_newline
cut_newline_lem s rest v h =
    rw (length-line max_message_text s rest v h, one_more, less_one)
      (ap some (set_last s (0 ∷ rest) 10 0))
  where
    one_more : (length s + 1 == 0) ≡ false
    one_more = ground arith

    less_one : length s + 1 - 1 ≡ length s
    less_one = omega arith

pub IsWord-IsLine : (w : List ℕ) → IsWord w → IsLine w
IsWord-IsLine [] v = tt
IsWord-IsLine (x ∷ w) v = (v.0, IsWord-IsLine w v.2)

-- A line of `to_one`, with `text` as the name and the words behind it.
pub read_to_one :
    (env : ClientEnv) (x : ℕ) (text rest : List ℕ)
    → IsLine (x ∷ text)
    → length text + 9 < max_message_text
    → read_command env ((bytes "to_one " ++ (x ∷ text)) ++ (10 ∷ 0 ∷ rest))
      ≡ tells client_to_one ((x ∷ text) ++ (0 ∷ 0 ∷ rest))
unfolding read_command choose_token choose strtok skip_spaces start_token split_token strtok_rest
    str_eq
read_to_one env x text rest v h =
    ap (λ o. elim o [ none ↦ faults | some cut ↦ choose_token env (strtok cut) ])
      (cut_newline_lem (bytes "to_one " ++ (x ∷ text)) rest whole (omega arith))
    ∙ ground arith
  where
    whole : IsLine (bytes "to_one " ++ (x ∷ text))
    whole = (
      ground arith,
      (
        ground arith,
        (ground arith, (ground arith, (ground arith, (ground arith, (ground arith, v))))),
      ),
    )

-- A line of `to_all`.
pub read_to_all :
    (env : ClientEnv) (x : ℕ) (text rest : List ℕ)
    → IsLine (x ∷ text)
    → length text + 9 < max_message_text
    → read_command env ((bytes "to_all " ++ (x ∷ text)) ++ (10 ∷ 0 ∷ rest))
      ≡ tells client_to_all ((x ∷ text) ++ (0 ∷ 0 ∷ rest))
unfolding read_command choose_token choose strtok skip_spaces start_token split_token strtok_rest
    str_eq
read_to_all env x text rest v h =
    ap (λ o. elim o [ none ↦ faults | some cut ↦ choose_token env (strtok cut) ])
      (cut_newline_lem (bytes "to_all " ++ (x ∷ text)) rest whole (omega arith))
    ∙ ground arith
  where
    whole : IsLine (bytes "to_all " ++ (x ∷ text))
    whole = (
      ground arith,
      (
        ground arith,
        (ground arith, (ground arith, (ground arith, (ground arith, (ground arith, v))))),
      ),
    )

-- What a user types after `to_one` arrives as it was meant: when the line is a name without spaces,
-- a space and a text that is not empty, and fits into the array, the client sends all of it, and on
-- what is sent the two calls of `strtok` in the server's `handle_to_one_message` give the name and
-- the whole text.
read_command-strtok :
    (env : ClientEnv) (x y : ℕ) (w words rest : List ℕ)
    → IsWord (x ∷ w)
    → IsLine (y ∷ words)
    → length w + length words + 11 < max_message_text
    → (sent_text : List ℕ) × (read_command env
          ((bytes "to_one " ++ ((x ∷ w) ++ (32 ∷ y ∷ words))) ++ (10 ∷ 0 ∷ rest))
        ≡ tells client_to_one sent_text)
      × (strtok sent_text ≡ some (x ∷ w, (y ∷ words) ++ (0 ∷ 0 ∷ rest)))
      × (strtok_rest ((y ∷ words) ++ (0 ∷ 0 ∷ rest)) ≡ some ((y ∷ words) ++ (0 ∷ 0 ∷ rest)))
unfolding strtok_rest
read_command-strtok env x y w words rest v l h = (
  ((x ∷ w) ++ (32 ∷ y ∷ words)) ++ (0 ∷ 0 ∷ rest),
  read_to_one env x (w ++ (32 ∷ y ∷ words)) rest
      (IsLine-append (x ∷ w) (32 ∷ y ∷ words) (IsWord-IsLine (x ∷ w) v) (ground arith, l))
      (omega (arith, length-append w (32 ∷ y ∷ words))),
  ap strtok (append_assoc (x ∷ w) (32 ∷ y ∷ words) (0 ∷ 0 ∷ rest))
      ∙ strtok-word x w ((y ∷ words) ++ (0 ∷ 0 ∷ rest)) v 0,
  ground arith,
)

IsLine-spaces : (k : ℕ) → IsLine (replicate k 32)
IsLine-spaces zero = tt
IsLine-spaces (suc k) = (ground arith, IsLine-spaces k)

strtok-spaces : (k : ℕ) (rest : List ℕ) → strtok (replicate k 32 ++ (0 ∷ rest)) ≡ none
unfolding strtok skip_spaces start_token
strtok-spaces zero rest = refl
strtok-spaces (suc k) rest = strtok-spaces k rest

-- An empty line, and a line of spaces, has no token: the client passes a null pointer to `strncmp`.
read_command_blank :
    (env : ClientEnv) (k : ℕ) (rest : List ℕ)
    → k + 1 < max_message_text
    → read_command env (replicate k 32 ++ (10 ∷ 0 ∷ rest)) ≡ faults
unfolding read_command choose_token
read_command_blank env k rest h =
    ap (λ o. elim o [ none ↦ faults | some cut ↦ choose_token env (strtok cut) ])
      (cut_newline_lem (replicate k 32) rest (IsLine-spaces k)
        (omega (arith, length-replicate {A = ℕ} k 32)))
    ∙ ap (choose_token env) (strtok-spaces k (0 ∷ rest))
