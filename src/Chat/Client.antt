-- ===== src/Chat/Client.antt =====
-- cw11/client.c: the registration, the commands of the user, and the thread that listens to the
-- server. What is sent and closed is listed; `recv` and the lines of `fgets` stand as arguments.
pub mod Commands
pub mod Listening
pub mod Printing
pub mod Start
use sysops.Common.{
  ℕ, ◌-◌, ◌==◌, Bool, true, false, not, if◌then◌else◌, Option, none, some, List, [], ◌∷◌, ◌++◌, ℤ,
  length, set,
}
use sysops.CMemory.{c_string, str_eq, literal}
use sysops.Chat.Message.{
  Message, MessageType, client_new, client_list, client_to_all, client_to_one, client_stop,
  client_alive, server_ok_register, server_chat_message, server_list_message, server_check_alive,
  init_message_t, max_message_text,
}
use sysops.Chat.State.{Effect, sent, closed}
use sysops.Chat.Text.{bytes, strtok, strtok_rest}

abbrev pub max_command_length : ℕ
max_command_length = 10

-- The clock, the memory from `client_id` on, and the memory behind a string literal.
pub record ClientEnv : Type 0 where
  pub now : ℕ
  pub client_id : List ℕ
  pub after_literal : List ℕ

-- What a user's line asks for.
pub data Command : Type 0 where
  tells : MessageType → List ℕ → Command
  stops : Command
  unknown_command : Command
  faults : Command

-- How far a loop has come: it waits for input, it has ended, or it did what C leaves undefined.
pub data Ending : Type 0 where
  waiting stopped crashed : Ending

-- `line[strlen(line) - 1] = '\0'`; on an empty line this writes in front of the array.
unfoldable pub cut_newline : List ℕ → Option (List ℕ)
cut_newline line =
    let n = length (c_string max_message_text line) in
    if n == 0 then none else some (set line (n - 1) 0)

-- `strncmp(command, word, MAX_COMMAND_LENGTH) == 0`
abbrev pub is_command : List ℕ → List ℕ → Bool
is_command token word = str_eq max_command_length (token ++ (0 ∷ [])) (word ++ (0 ∷ []))

abbrev pub with_text : MessageType → Option (List ℕ) → Command
with_text type none = faults
with_text type (some text) = tells type text

module _ (env : ClientEnv) where
  open env use {now, client_id, after_literal}

  -- `init_message_t(&message, client_id, type, text)`
  abbrev pub from_client : MessageType → List ℕ → Message
  from_client type text = init_message_t now client_id type text

  abbrev pub no_text : List ℕ
  no_text = literal after_literal (bytes "")

  -- The tests of `handle_user_input` on the first token, with what is left of the line.
  unfoldable pub choose : List ℕ → List ℕ → Command
  choose token rest =
      if is_command token (bytes "list")
      then tells client_list no_text
      else if is_command token (bytes "to_all")
      then with_text client_to_all (strtok_rest rest)
      else if is_command token (bytes "to_one")
      then with_text client_to_one (strtok_rest rest)
      else if is_command token (bytes "stop")
      then stops
      else unknown_command

  -- A line without a token gives the null pointer to `strncmp`.
  unfoldable pub choose_token : Option (List ℕ × List ℕ) → Command
  unfolding choose
  choose_token none = faults
  choose_token (some (token, rest)) = choose token rest

  unfoldable pub read_command : List ℕ → Command
  unfolding cut_newline choose_token
  read_command line = elim (cut_newline line) [
    | none ↦ faults
    | some cut ↦ choose_token (strtok cut)
  ]

  unfoldable pub clean_exit : ℤ → List Effect
  clean_exit fd = sent fd (from_client client_stop no_text) ∷ closed fd ∷ []

  -- The message that `register_on_server` sends.
  abbrev pub new_client_request : Message
  new_client_request = from_client client_new no_text

  -- `handle_user_input` on the lines that come.
  unfoldable pub handle_user_input : ℤ → List (List ℕ) → Ending × List Effect
  unfolding read_command
  handle_user_input fd [] = (waiting, [])
  handle_user_input fd (line ∷ lines) = elim (read_command line) [
    | tells type text ↦
        (let (ending, acts) = handle_user_input fd lines in
          (ending, sent fd (from_client type text) ∷ acts))
    | stops ↦ (stopped, sent fd (from_client client_stop no_text) ∷ [])
    | unknown_command ↦ handle_user_input fd lines
    | faults ↦ (crashed, [])
  ]

  -- The `switch` of `wait_for_messages`, with what the thread does afterwards.
  unfoldable pub react : ℤ → MessageType → Ending × List Effect → Ending × List Effect
  unfolding clean_exit
  react fd server_chat_message (ending, acts) = (ending, acts)
  react fd server_list_message (ending, acts) = (ending, acts)
  react fd server_check_alive (ending, acts) =
      (ending, sent fd (from_client client_alive no_text) ∷ acts)
  react fd _ later = (stopped, clean_exit fd)

  -- `wait_for_messages` on the messages that come; `none` is a `receive_message` that failed.
  unfoldable pub wait_for_messages : ℤ → List (Option Message) → Ending × List Effect
  unfolding react
  wait_for_messages fd [] = (waiting, [])
  wait_for_messages fd (none ∷ more) = (stopped, clean_exit fd)
  wait_for_messages fd (some response ∷ more) = react fd response.type (wait_for_messages fd more)

abbrev pub is_ok : MessageType → Bool
is_ok server_ok_register = true
is_ok _ = false

-- Whether `register_on_server` returns 0: whether the request was sent, and what was received.
unfoldable pub register_on_server : Bool → Option Message → Bool
register_on_server sends none = false
register_on_server sends (some response) = if sends then is_ok response.type else false
