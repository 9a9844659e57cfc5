-- ===== src/Chat/Client/Printing.antt =====
-- What the listening thread of cw11/client.c prints.
use sysops.Common.{
  ℕ, ◌<◌, ◌≡◌, refl, if◌then◌else◌, Option, none, some, List, [], ◌∷◌, ◌++◌, length, ltb, arith,
}
use sysops.CMemory.{c_string}
use sysops.CMemory.Lines.{IsLine, c_string-line}
use sysops.Chat.Message.{
  Message, server_chat_message, server_list_message, server_check_alive, server_shutdown,
  max_client_name, max_message_text,
}

-- What `%s` prints of an array of `n` bytes; `none`: no NUL in it, and `printf` reads on behind it.
unfoldable pub string_in : ℕ → List ℕ → Option (List ℕ)
string_in n array = let s = c_string n array in if ltb (length s) n then some s else none

-- A line on the screen: a chat message with its time, its sender and its text, the names of the
-- clients, and the two lines without a field.
pub data Line : Type 0 where
  chat_line : ℕ → Option (List ℕ) → Option (List ℕ) → Line
  clients : Option (List ℕ) → Line
  shutting_down unexpected : Line

-- The `switch` of `wait_for_messages`: what it prints, with what is printed afterwards.
unfoldable pub print_message : Message → List Line → List Line
unfolding string_in
print_message m later = elim m.type [
  | server_chat_message ↦
      chat_line m.timestamp (string_in max_client_name m.sender) (string_in max_message_text m.text)
      ∷ later
  | server_list_message ↦ clients (string_in max_message_text m.text) ∷ later
  | server_check_alive ↦ later
  | server_shutdown ↦ shutting_down ∷ []
  | _ ↦ unexpected ∷ []
]

-- The lines of the thread on the messages that come.
unfoldable pub printed : List (Option Message) → List Line
unfolding print_message
printed [] = []
printed (none ∷ more) = []
printed (some response ∷ more) = print_message response (printed more)

pub string_in-line :
    (n : ℕ) (s rest : List ℕ) → IsLine s → length s < n → string_in n (s ++ (0 ∷ rest)) ≡ some s
unfolding string_in
string_in-line n s rest v h = rw (c_string-line n s rest v (omega arith)) (ground arith)

-- A chat message as it is printed.
pub print_message-chat :
    (m : Message) (name text : List ℕ) (later : List Line)
    → m.type ≡ server_chat_message
    → string_in max_client_name m.sender ≡ some name
    → string_in max_message_text m.text ≡ some text
    → print_message m later ≡ chat_line m.timestamp (some name) (some text) ∷ later
unfolding print_message
print_message-chat m name text later kind n t = rw (kind, n, t) refl
