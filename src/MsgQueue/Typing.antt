-- ===== src/MsgQueue/Typing.antt =====
-- From a line that a user of cw07 types to what the listeners print.
use sysops.Common.{
  ℕ, ◌+◌, ◌<◌, ◌≡◌, ◌≢◌, refl, ◌∙◌, sym, true, false, Bool-cases, inl, inr, ◌⊎◌, Bool,
  if◌then◌else◌, ltb, List, [], ◌∷◌, ◌++◌, ℤ, length, arith,
}
use sysops.CMemory.{c_string, str_eq, read_at, bytes}
use sysops.CMemory.Strings.{str_eq_iff, c_string-read_at}
use sysops.CMemory.Lines.{IsLine, c_string-line, length-line, set_last}
use sysops.MsgQueue.Client.{
  max_msg_buf_size, received, listen_for_messages, strcspn_newline, leaves, says, read_input,
}
use sysops.MsgQueue.Posting.{text_msg}

-- What a user can type: neither NUL nor newline.
abbrev pub IsTyped : List ℕ → Type 0
IsTyped [] = Unit {0}
IsTyped (x ∷ s) = (x ≢ 0) × (x ≢ 10) × IsTyped s

IsTyped-IsLine : (s : List ℕ) → IsTyped s → IsLine s
IsTyped-IsLine [] v = tt
IsTyped-IsLine (x ∷ s) v = (v.0, IsTyped-IsLine s v.2)

strcspn_newline-typed :
    (s rest : List ℕ) → IsTyped s → strcspn_newline (s ++ (10 ∷ rest)) ≡ length s
unfolding strcspn_newline
strcspn_newline-typed [] rest v = refl
strcspn_newline-typed (x ∷ s) rest v = ground (arith, strcspn_newline-typed s rest v.2)

-- The array behind a line.
abbrev pub buffer : List ℕ → List ℕ → List ℕ
buffer s rest = s ++ (10 ∷ 0 ∷ rest)

-- The bytes that a text message carries.
abbrev pub carried : List ℕ → List ℕ → List ℕ
carried s rest = read_at (s ++ (0 ∷ 0 ∷ rest)) 0 max_msg_buf_size

read_input_lem :
    (s rest : List ℕ)
    → IsTyped s
    → length s + 1 < max_msg_buf_size
    → read_input (buffer s rest) ≡ (
        if str_eq max_msg_buf_size (s ++ (0 ∷ 0 ∷ rest)) (bytes ":exit" ++ (0 ∷ []))
        then leaves
        else says (carried s rest))
unfolding read_input
read_input_lem s rest v h =
    rw
      (
        length-line (max_msg_buf_size + 1) s rest (IsTyped-IsLine s v) (omega arith),
        strcspn_newline-typed s (0 ∷ rest) v,
        set_last s (0 ∷ rest) 10 0,
        short,
      )
      refl
  where
    short : ltb max_msg_buf_size (length s + 1 + 1) ≡ false
    short = ground arith

is_exit :
    (s rest : List ℕ)
    → IsTyped s
    → length s + 1 < max_msg_buf_size
    → (str_eq max_msg_buf_size (s ++ (0 ∷ 0 ∷ rest)) (bytes ":exit" ++ (0 ∷ [])) ≡ true)
    → s ≡ bytes ":exit"
is_exit s rest v h e =
    sym (c_string-line max_msg_buf_size s (0 ∷ rest) (IsTyped-IsLine s v) (omega arith))
    ∙ (str_eq_iff max_msg_buf_size (s ++ (0 ∷ 0 ∷ rest)) (bytes ":exit" ++ (0 ∷ []))).0 e
    ∙ c_string-line max_msg_buf_size (bytes ":exit") [] (omega arith) (omega arith)

-- A line that fits into the array and is not `:exit` arrives: the client takes it as a text, and a
-- listener that receives the message prints the number of its author and, up to the NUL, exactly
-- what was typed.
pub read_input-listen_for_messages :
    (id : ℤ) (s rest : List ℕ)
    → IsTyped s
    → length s + 1 < max_msg_buf_size
    → s ≢ bytes ":exit"
    → (line : List ℕ) × (read_input (buffer s rest) ≡ says line)
      × (listen_for_messages ((true, text_msg id line) ∷ []) ≡ received id line ∷ [])
      × (c_string max_msg_buf_size line ≡ s)
unfolding listen_for_messages
read_input-listen_for_messages id s rest v h ne = (
  carried s rest,
  read_input_lem s rest v h ∙ stays (Bool-cases b),
  refl,
  c_string-read_at max_msg_buf_size (s ++ (0 ∷ 0 ∷ rest))
      ∙ c_string-line max_msg_buf_size s (0 ∷ rest) (IsTyped-IsLine s v) (omega arith),
)
  where
    b : Bool
    b = str_eq max_msg_buf_size (s ++ (0 ∷ 0 ∷ rest)) (bytes ":exit" ++ (0 ∷ []))

    stays :
        (b ≡ true) ⊎ (b ≡ false)
        → (if b then leaves else says (carried s rest)) ≡ says (carried s rest)
    stays (inl e) = absurd (ne (is_exit s rest v h e))
    stays (inr e) = rw e refl
