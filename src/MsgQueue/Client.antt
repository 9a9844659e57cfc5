-- ===== src/MsgQueue/Client.antt =====
-- cw07/client.c: the client of the message queue chat. The lines of `fgets`, the messages of
-- `mq_receive` and whether a call works stand as arguments.
use sysops.Common.{
  ℕ, suc, ◌+◌, ◌==◌, ◌||◌, Bool, true, false, if◌then◌else◌, ltb, Option, none, some, List, [], ◌∷◌,
  ◌++◌, ℤ, minus_one, length, set,
}
use sysops.CMemory.{c_string, str_eq, read_at, bytes}
use sysops.MsgQueue.{MsgType, init, text, client_exit, Msg, is_negative}

abbrev pub max_msg_buf_size : ℕ
max_msg_buf_size = 1024

-- What the listener prints: a message with its author, or that `mq_receive` failed.
pub data Printed : Type 0 where
  received : ℤ → List ℕ → Printed
  failed : Printed

abbrev pub is_text : MsgType → Bool
is_text text = true
is_text _ = false

-- `listen_for_messages`, until a signal ends it: whether each `mq_receive` works, and what `msg`
-- holds behind it. A failure is only reported, and then `msg` is looked at all the same.
unfoldable pub listen_for_messages : List (Bool × Msg) → List Printed
listen_for_messages [] = []
listen_for_messages ((works, msg) ∷ more) =
    (if works then [] else failed ∷ [])
    ++ ((if is_text msg.type then received msg.id msg.content ∷ [] else [])
        ++ listen_for_messages more)

-- `strcspn(buf, "\n")`
unfoldable pub strcspn_newline : List ℕ → ℕ
strcspn_newline [] = 0
strcspn_newline (x ∷ buf) = if x == 0 || x == 10 then 0 else suc (strcspn_newline buf)

-- What a line asks for.
pub data Input : Type 0 where
  too_long leaves : Input
  says : List ℕ → Input

-- The body of the loop of `handle_text_input`, with `buf` as `fgets` left it.
unfoldable pub read_input : List ℕ → Input
unfolding strcspn_newline
read_input buf =
    let len = length (c_string (max_msg_buf_size + 1) buf) in
    let cut = set buf (strcspn_newline buf) 0 in
    if ltb max_msg_buf_size (len + 1)
    then too_long
    else if str_eq max_msg_buf_size cut (bytes ":exit" ++ (0 ∷ []))
    then leaves
    else says (read_at cut 0 max_msg_buf_size)

-- A call of the client; `sends` has the queue, the priority and the message. A failing `mq_send`
-- of a text or of the exit only prints.
pub data Act : Type 0 where
  sends : ℤ → ℕ → Msg → Act
  closes : ℤ → Act
  unlinks : List ℕ → Act
  kills_listener : Act

-- `handle_text_input`, until `:exit` or a signal; `none` is a `fgets` that returns NULL.
unfoldable pub handle_text_input : ℤ → ℤ → List (Option (List ℕ)) → List Act
unfolding read_input
handle_text_input server_q client_id [] = []
handle_text_input server_q client_id (none ∷ more) = handle_text_input server_q client_id more
handle_text_input server_q client_id (some buf ∷ more) = elim (read_input buf) [
  | too_long ↦ handle_text_input server_q client_id more
  | leaves ↦ []
  | says line ↦
      sends server_q 1 (record { type = text; id = client_id; content = line })
      ∷ handle_text_input server_q client_id more
]

unfoldable pub cleanup : ℤ → ℤ → List ℕ → List Act
cleanup server_q client_q name = closes server_q ∷ closes client_q ∷ unlinks name ∷ []

-- What the calls of `main` return: the two queues, whether INIT is sent, the message with the id,
-- and whether `fork` works.
pub record Results : Type 0 where
  pub client_q : ℤ
  pub server_q : ℤ
  pub init_sent : Bool
  pub id_msg : Option Msg
  pub forks : Bool

abbrev pub init_msg : List ℕ → Msg
init_msg name = record { type = init; id = minus_one; content = read_at name 0 max_msg_buf_size }

-- The end of the parent in `main`. The array of the exit message is zero.
unfoldable pub leave_chat : Results → List ℕ → ℤ → List Act
unfolding cleanup
leave_chat r name client_id =
    kills_listener
    ∷ sends r.server_q 2 (record { type = client_exit; id = client_id; content = [] })
    ∷ cleanup r.server_q r.client_q name

-- `main` behind its INIT message, with the message that carries the id.
unfoldable pub after_init : Option Msg → Results → List ℕ → List (Option (List ℕ)) → List Act × Bool
unfolding cleanup handle_text_input leave_chat
after_init none r name lines = (cleanup r.server_q r.client_q name, false)
after_init (some m) r name lines =
    if r.forks
    then (handle_text_input r.server_q m.id lines ++ leave_chat r name m.id, true)
    else ([], false)

-- `main` of the parent process, and whether it returns EXIT_SUCCESS.
unfoldable pub main : Results → List ℕ → List (Option (List ℕ)) → List Act × Bool
unfolding after_init
main r name lines =
    let (acts, ok) = after_init r.id_msg r name lines in
    if is_negative r.client_q
    then ([], false)
    else if is_negative r.server_q
    then (closes r.client_q ∷ unlinks name ∷ [], false)
    else if r.init_sent
    then (sends r.server_q 1 (init_msg name) ∷ acts, ok)
    else (sends r.server_q 1 (init_msg name) ∷ [], false)
