-- ===== src/Chat/Registry.antt =====
-- The loops of cw11/server.c over `clients`, each as a function of the table: the whole array, from
-- its first entry on.
pub mod Names
pub mod Table
pub mod Reset
pub mod Delivery
pub mod Alive
pub mod Sockets
use sysops.Common.{
  ℕ, ◌+◌, ◌≡◌, Bool, true, false, ◌&&◌, ◌||◌, not, if◌then◌else◌, ◌==◌, leb, Option, none, some,
  List, [], ◌∷◌, ◌++◌, ℤ, pos, negsuc, eq_ℤ, minus_one, length, map,
}
use sysops.CMemory.{read_at, str_eq, c_string}
use sysops.Chat.Message.{Message, max_client_name}
use sysops.Chat.State.{Client, Effect, sent, closed}

-- `clients[i].valid && strncmp(clients[i].name, name, MAX_CLIENT_NAME) == 0`
abbrev pub is_named : List ℕ → Client → Bool
is_named name c = c.valid && str_eq max_client_name c.name name

-- The first loop of `add_client`: is the name taken?
unfoldable pub has_name : List ℕ → List Client → Bool
has_name name [] = false
has_name name (c ∷ cs) = is_named name c || has_name name cs

-- The second loop of `add_client`: fill the first entry that is not valid.
unfoldable pub occupy : List ℕ → ℤ → List Client → List Client
occupy name socket [] = []
occupy name socket (c ∷ cs) =
    if not c.valid
    then record c { valid = true; socket = socket; name = read_at name 0 max_client_name } ∷ cs
    else c ∷ occupy name socket cs

-- The loop of `handle_client_delete`: `to_close` behind it, and the table behind it.
unfoldable pub socket_to_close : List ℕ → List Client → ℤ
socket_to_close name [] = minus_one
socket_to_close name (c ∷ cs) = if is_named name c then c.socket else socket_to_close name cs

unfoldable pub vacate : List ℕ → List Client → List Client
vacate name [] = []
vacate name (c ∷ cs) =
    if is_named name c
    then record c { valid = false; name = 0 ∷ read_at c.name 1 63; socket = minus_one } ∷ cs
    else c ∷ vacate name cs

-- The loop of `handle_to_all_message`
unfoldable pub broadcast : List ℕ → Message → List Client → List Effect
broadcast sender response [] = []
broadcast sender response (c ∷ cs) =
    if c.valid && not (str_eq max_client_name c.name sender)
    then sent c.socket response ∷ broadcast sender response cs
    else broadcast sender response cs

-- The loop of `handle_to_one_message`
unfoldable pub deliver : List ℕ → Message → List Client → List Effect
deliver receiver_name msg [] = []
deliver receiver_name msg (c ∷ cs) =
    if is_named receiver_name c then sent c.socket msg ∷ [] else deliver receiver_name msg cs

-- The loop of `handle_list_request`: the text that it appends to `buffer`.
unfoldable pub name_list : List Client → List ℕ
name_list [] = []
name_list (c ∷ cs) =
    let rest = name_list cs in
    if c.valid then c_string max_client_name c.name ++ (10 ∷ rest) else rest

-- Does each `strcat` of that loop find the end of its name inside `name`?
unfoldable pub names_end : List Client → Bool
names_end [] = true
names_end (c ∷ cs) =
    (not c.valid || leb (length (c_string max_client_name c.name) + 1) max_client_name)
    && names_end cs

-- The loop of `handle_got_alive_message`
unfoldable pub answer : ℤ → List Client → List Client
answer client_fd [] = []
answer client_fd (c ∷ cs) =
    if eq_ℤ c.socket client_fd
    then record c { awaiting_alive_response = false } ∷ cs
    else c ∷ answer client_fd cs

-- The first loop of `check_if_clients_are_alive`: what it sends, and what it marks.
unfoldable pub ask_alive : Message → List Client → List Effect
ask_alive message [] = []
ask_alive message (c ∷ cs) =
    if c.valid then sent c.socket message ∷ ask_alive message cs else ask_alive message cs

abbrev pub mark_one : Client → Client
mark_one c = if c.valid then record c { awaiting_alive_response = true } else c

unfoldable pub mark_awaiting : List Client → List Client
mark_awaiting = map mark_one

-- Its second loop: what it closes, and the table behind it.
unfoldable pub close_dead : List Client → List Effect
close_dead [] = []
close_dead (c ∷ cs) =
    if c.valid && c.awaiting_alive_response then closed c.socket ∷ close_dead cs else close_dead cs

abbrev pub drop_one : Client → Client
drop_one c =
    if c.valid && c.awaiting_alive_response
    then record c { valid = false; awaiting_alive_response = false }
    else c

unfoldable pub drop_dead : List Client → List Client
drop_dead = map drop_one

-- The loop of `init_clients`
abbrev pub reset_one : Client → Client
reset_one c = record {
  name = 0 ∷ read_at c.name 1 63;
  socket = minus_one;
  valid = false;
  awaiting_alive_response = false;
}

unfoldable pub reset : List Client → List Client
reset = map reset_one

-- The loop of `cleanup`
unfoldable pub dismiss : Message → List Client → List Effect
dismiss message [] = []
dismiss message (c ∷ cs) =
    if c.valid
    then sent c.socket message ∷ closed c.socket ∷ dismiss message cs
    else dismiss message cs
