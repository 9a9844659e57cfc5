-- ===== src/Chat/Text.antt =====
-- The texts of cw11/server.c: its string literals, and `strtok` as `handle_to_one_message` calls
-- it.
pub mod Tokens
use sysops.Common.{ℕ, if◌then◌else◌, ◌==◌, Option, none, some, List, [], ◌∷◌}
pub use sysops.CMemory.{bytes}

-- The delimiters that a token may not start with.
unfoldable pub skip_spaces : List ℕ → List ℕ
skip_spaces [] = []
skip_spaces (x ∷ s) = if x == b' ' then skip_spaces s else x ∷ s

-- A token up to the next space, which is overwritten, or up to the NUL; and what stands behind it.
unfoldable pub split_token : List ℕ → List ℕ × List ℕ
split_token [] = ([], [])
split_token (x ∷ s) =
    let (token, rest) = split_token s in
    if x == 0 then ([], x ∷ s) else if x == b' ' then ([], s) else (x ∷ token, rest)

unfoldable pub start_token : List ℕ → Option (List ℕ × List ℕ)
unfolding split_token
start_token [] = none
start_token (x ∷ s) = if x == 0 then none else some (split_token (x ∷ s))

-- `strtok(message, " ")`: the token and the saved pointer, or NULL.
unfoldable pub strtok : List ℕ → Option (List ℕ × List ℕ)
unfolding skip_spaces start_token
strtok message = start_token (skip_spaces message)

-- `strtok(NULL, "")`: all that is left, or NULL at the end.
unfoldable pub strtok_rest : List ℕ → Option (List ℕ)
strtok_rest [] = none
strtok_rest (x ∷ s) = if x == 0 then none else some (x ∷ s)
