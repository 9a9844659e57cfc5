-- ===== src/MsgQueue.antt =====
-- cw07: the chat over POSIX message queues: the messages of queue_spec.h and the server of
-- server.c.
pub mod Room
pub mod Refine
pub mod Client
pub mod Serving
pub mod Posting
pub mod Arrival
pub mod Session
pub mod Typing
mod Tests
mod ClientTests
use sysops.Common.{
  ℕ, zero, suc, ◌+◌, Bool, true, false, if◌then◌else◌, ltb, Option, none, some, List, [], ◌∷◌, ◌++◌,
  ℤ, pos, negsuc, minus_one, eq_ℤ, get_or, set, length, replicate,
}

abbrev pub max_clients : ℕ
max_clients = 50

-- `msg_type_t`; a number that is none of the enumerators is `unknown`.
pub data MsgType : Type 0 where
  init receive_id text client_exit : MsgType
  unknown : ℕ → MsgType

-- `msg_t`: `content` is its field `text`.
pub record Msg : Type 0 where
  pub type : MsgType
  pub id : ℤ
  pub content : List ℕ

-- A call on a message queue. A failing `mq_send` only prints.
pub data Call : Type 0 where
  send : ℤ → Msg → Call
  close : ℤ → Call

-- The globals of server.c, with what it has done on the clients' queues.
pub record Server : Type 0 where
  pub curr_max_client_num : ℕ
  pub client_queues : List ℤ
  pub calls : List Call

-- Entry `i` of the array of queues.
abbrev pub queue_at : List ℤ → ℕ → ℤ
queue_at qs i = get_or qs i minus_one

abbrev pub is_negative : ℤ → Bool
is_negative (pos n) = false
is_negative (negsuc n) = true

-- `opened` is what `mq_open` returns. `none`: the write goes past the end of the array.
unfoldable pub handle_init_message : ℤ → Server → Option Server
handle_init_message opened s =
    let new_client_num = s.curr_max_client_num in
    let stored = set s.client_queues new_client_num opened in
    if ltb new_client_num max_clients
    then (if is_negative opened
        then some (record s { client_queues = stored })
        else some (record {
          curr_max_client_num = new_client_num + 1;
          client_queues = stored;
          calls =
              s.calls
              ++ (send opened (record { type = receive_id; id = pos new_client_num; content = [] })
                  ∷ []);
        }))
    else none

-- The loop of `handle_text_message` over the first `n` entries.
unfoldable pub broadcast : Msg → ℕ → List ℤ → List Call
broadcast message zero qs = []
broadcast message (suc n) [] = []
broadcast message (suc n) (q ∷ qs) =
    if eq_ℤ q minus_one then broadcast message n qs else send q message ∷ broadcast message n qs

unfoldable pub handle_text_message : Msg → Server → Option Server
handle_text_message message s =
    some (record s { calls = s.calls ++ broadcast message s.curr_max_client_num s.client_queues })

unfoldable pub close_queue : ℕ → Server → Server
close_queue i s =
    if ltb i max_clients
    then record s {
      client_queues = set s.client_queues i minus_one;
      calls = s.calls ++ (close (queue_at s.client_queues i) ∷ []);
    }
    else s

unfoldable pub handle_client_exit_message : Msg → Server → Option Server
unfolding close_queue
handle_client_exit_message message s =
    some (elim message.id [ pos i ↦ close_queue i s | negsuc n ↦ s ])

-- The switch of `dispatch_message_type`; any other type is only reported.
unfoldable pub dispatch_by : MsgType → ℤ → Msg → Server → Option Server
dispatch_by init opened message s = handle_init_message opened s
dispatch_by text opened message s = handle_text_message message s
dispatch_by client_exit opened message s = handle_client_exit_message message s
dispatch_by _ opened message s = some s

abbrev pub dispatch_message_type : ℤ → Msg → Server → Option Server
dispatch_message_type opened message s = dispatch_by message.type opened message s

-- The loop of `main` over the messages that arrive, each with what `mq_open` returns for it.
unfoldable pub serve : List (ℤ × Msg) → Server → Option Server
serve [] s = some s
serve ((opened, message) ∷ rest) s = elim (dispatch_message_type opened message s) [
  | none ↦ none
  | some t ↦ serve rest t
]

-- The start of `main`.
abbrev pub start : Server
start = record {
  curr_max_client_num = 0;
  client_queues = replicate max_clients minus_one;
  calls = [];
}

-- The loop of `sig_handler`: the queues that it closes.
unfoldable pub close_all : List ℤ → List Call
close_all [] = []
close_all (q ∷ qs) = if eq_ℤ q minus_one then close_all qs else close q ∷ close_all qs
