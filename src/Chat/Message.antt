-- ===== src/Chat/Message.antt =====
-- cw11/socket_utils.h and cw11/socket_utils.c: the message, its place in a packet, and its way
-- through `send` and `recv`, which stand as arguments.
pub mod Wire
use sysops.Common.{
  ℕ, ◌+◌, ◌%◌, ◌^◌, ◌≤◌, ◌<◌, ◌≡◌, Bool, if◌then◌else◌, ◌==◌, Option, none, some, List, length,
}
use sysops.CMemory.{write_at, read_at, le_bytes, of_le_bytes, htonl, ntohl}

abbrev pub max_client_name : ℕ
max_client_name = 64

abbrev pub max_message_text : ℕ
max_message_text = 512

abbrev pub max_msg_net_buf : ℕ
max_msg_net_buf = 1024

abbrev pub max_clients : ℕ
max_clients = 100

-- `message_type_t`. A number that arrives and is none of the enumerators is `unknown`.
pub data MessageType : Type 0 where
  client_new client_list client_to_all client_to_one client_stop client_alive : MessageType
  server_ok_register server_failure_register server_chat_message : MessageType
  server_list_message server_check_alive server_shutdown : MessageType
  unknown : ℕ → MessageType

-- The enumerators as numbers.
unfoldable pub code : MessageType → ℕ
code client_new = 0
code client_list = 1
code client_to_all = 2
code client_to_one = 3
code client_stop = 4
code client_alive = 5
code server_ok_register = 6
code server_failure_register = 7
code server_chat_message = 8
code server_list_message = 9
code server_check_alive = 10
code server_shutdown = 11
code (unknown n) = n

-- The cast to `message_type_t`.
unfoldable pub of_code : ℕ → MessageType
of_code n =
    if n == 0
    then client_new
    else if n == 1
    then client_list
    else if n == 2
    then client_to_all
    else if n == 3
    then client_to_one
    else if n == 4
    then client_stop
    else if n == 5
    then client_alive
    else if n == 6
    then server_ok_register
    else if n == 7
    then server_failure_register
    else if n == 8
    then server_chat_message
    else if n == 9
    then server_list_message
    else if n == 10
    then server_check_alive
    else if n == 11
    then server_shutdown
    else unknown n

-- `message_t`: `text` is the field `message`. Times are not before 1970.
pub record Message : Type 0 where
  pub sender : List ℕ
  pub type : MessageType
  pub text : List ℕ
  pub timestamp : ℕ

-- `init_message_t` at the time `now`: the arguments are the memory from each pointer on.
unfoldable pub init_message_t : ℕ → List ℕ → MessageType → List ℕ → Message
init_message_t now sender type message_text = record {
  sender = read_at sender 0 max_client_name;
  type = type;
  text = read_at message_text 0 max_message_text;
  timestamp = now;
}

-- `buffer` is what the stack holds before the call. `time_t` has eight bytes.
unfoldable pub serialize_message_t : Message → List ℕ → List ℕ
serialize_message_t input buffer =
    let named = write_at buffer 0 (read_at input.sender 0 max_client_name) in
    let typed = write_at named 64 (le_bytes 4 (htonl (code input.type % 2 ^ 32))) in
    let filled = write_at typed 68 (read_at input.text 0 max_message_text) in
    write_at filled 580 (le_bytes 8 (htonl (input.timestamp % 2 ^ 32)))

unfoldable pub deserialize_message_t : List ℕ → Message
deserialize_message_t buffer = record {
  sender = read_at buffer 0 max_client_name;
  type = of_code (ntohl (of_le_bytes (read_at buffer 64 4)));
  text = read_at buffer 68 max_message_text;
  timestamp = ntohl (of_le_bytes (read_at buffer 580 8) % 2 ^ 32);
}

-- `sends` says whether `send` takes the packet; the result is `send_message(...) == 0`.
unfoldable pub send_message : (List ℕ → Bool) → List ℕ → Message → Bool
send_message sends buffer message = sends (serialize_message_t message buffer)

-- `recv` gives -1 (`none`) or the bytes that have arrived, none at all after the peer has closed;
-- the buffer keeps its old content behind them.
unfoldable pub receive_message : Option (List ℕ) → List ℕ → Option Message
receive_message none buffer = none
receive_message (some bytes) buffer = some (deserialize_message_t (write_at buffer 0 bytes))

-- What the enumeration and the arrays of a `message_t` allow.
abbrev pub IsCode : MessageType → Type 0
IsCode (unknown n) = (12 ≤ n) × (n < 2 ^ 32)
IsCode _ = Unit {0}

pub record IsMessage (m : Message) : Type 0 where
  pub name_size : length m.sender ≡ max_client_name
  pub text_size : length m.text ≡ max_message_text
  pub is_code : IsCode m.type
