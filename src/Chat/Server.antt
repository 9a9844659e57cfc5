-- ===== src/Chat/Server.antt =====
-- The handlers of cw11/server.c, each whole, over the loops of `Chat.Registry`.
pub mod Registration
pub mod Chatting
pub mod Listing
pub mod Safety
pub mod Heartbeat
pub mod Loop
pub mod Start
use sysops.Common.{
  ℕ, ◌+◌, true, ◌&&◌, if◌then◌else◌, leb, Option, none, some, List, [], ◌∷◌, ◌++◌, ℤ, pos, eq_ℤ,
  minus_one, length,
}
use sysops.CMemory.{write_at, literal}
use sysops.Chat.Message.{
  Message, MessageType, client_new, client_list, client_to_all, client_to_one, client_stop,
  client_alive, server_ok_register, server_failure_register, server_chat_message,
  server_list_message, server_check_alive, server_shutdown, init_message_t, max_message_text,
}
use sysops.Chat.State.{
  sent, closed, shut, done, M, ◌>>=◌, ◌>>◌, return, undefined, lock, unlock, table, set_table,
  perform,
}
use sysops.Chat.Registry.{
  has_name, occupy, socket_to_close, vacate, broadcast, deliver, name_list, names_end, answer,
  ask_alive, mark_awaiting, close_dead, drop_dead, reset, dismiss,
}
use sysops.Chat.Text.{bytes, strtok, strtok_rest}

-- What a handler finds outside the server's globals: the clock, the memory behind a string literal
-- and behind the text of the received message, and the array `buffer` before it is filled.
pub record Env : Type 0 where
  pub now : ℕ
  pub after_literal : List ℕ
  pub after_text : List ℕ
  pub stack : List ℕ

unfoldable pub init_clients : M (Unit {0})
init_clients = do lock; cs ← table; set_table (reset cs); unlock

-- The early return of a taken name leaves the mutex locked.
unfoldable pub add_client : List ℕ → ℤ → M ℤ
add_client name socket = do
  lock
  cs ← table
  if has_name name cs
      then return minus_one
      else (do set_table (occupy name socket cs); unlock; return (pos 0))

unfoldable pub handle_client_delete : List ℕ → M (Unit {0})
handle_client_delete name = do
  lock
  cs ← table
  set_table (vacate name cs)
  unlock
  if eq_ℤ (socket_to_close name cs) minus_one
      then return tt
      else perform (closed (socket_to_close name cs) ∷ [])

module _ (env : Env) where
  open env use {now, after_literal, after_text, stack}

  -- A message of the server's own.
  unfoldable pub from_server : MessageType → List ℕ → Message
  from_server type text =
      init_message_t now (literal after_literal (bytes "SERVER")) type (literal after_literal text)

  unfoldable pub handle_to_all_message : List ℕ → List ℕ → M (Unit {0})
  handle_to_all_message sender message = do
    lock
    cs ← table
    perform (broadcast sender (init_message_t now sender server_chat_message message) cs)
    unlock

  -- With `message_text` NULL `init_message_t` copies from a null pointer.
  unfoldable pub to_receiver : List ℕ → List ℕ → Option (List ℕ) → M (Unit {0})
  to_receiver sender receiver_name none = undefined
  to_receiver sender receiver_name (some message_text) = do
    lock
    cs ← table
    perform (deliver receiver_name (init_message_t now sender server_chat_message message_text) cs)
    unlock

  -- Where the first `strtok` finds no token, the second one gives NULL too.
  unfoldable pub to_token : List ℕ → Option (List ℕ × List ℕ) → M (Unit {0})
  unfolding to_receiver
  to_token sender none = undefined
  to_token sender (some (receiver_name, rest)) = to_receiver sender receiver_name (strtok_rest rest)

  unfoldable pub handle_to_one_message : List ℕ → List ℕ → M (Unit {0})
  unfolding to_token
  handle_to_one_message sender message = to_token sender (strtok message)

  unfoldable pub handle_new_client : List ℕ → ℤ → M (Unit {0})
  unfolding add_client
  handle_new_client sender client_fd = do
    status ← add_client sender client_fd
    if eq_ℤ status (pos 0)
        then perform
            (sent client_fd (from_server server_ok_register (bytes "successfully registered")) ∷ [])
        else perform (
            sent client_fd (from_server server_failure_register (bytes "identifier already taken"))
            ∷ [])

  -- `strcat` appends to `buffer` without a check of its size.
  unfoldable pub handle_list_request : ℤ → M (Unit {0})
  handle_list_request client_fd = do
    lock
    cs ← table
    if names_end cs && leb (length (name_list cs) + 1) max_message_text
        then (do
          unlock
          perform (
              sent client_fd (
                init_message_t now (literal after_literal (bytes "SERVER")) server_list_message
                  (write_at stack 0 (name_list cs ++ (0 ∷ []))))
              ∷ []))
        else undefined

unfoldable pub handle_got_alive_message : ℤ → M (Unit {0})
handle_got_alive_message client_fd = do lock; cs ← table; set_table (answer client_fd cs); unlock

-- The `switch` of `handle_client_message`.
unfoldable pub dispatch : Env → Message → ℤ → M (Unit {0})
unfolding handle_client_delete handle_to_all_message handle_to_one_message handle_new_client
    handle_list_request handle_got_alive_message
dispatch env message client_fd = elim message.type [
  | client_new ↦ handle_new_client env message.sender client_fd
  | client_stop ↦ handle_client_delete message.sender
  | client_to_all ↦ handle_to_all_message env message.sender (message.text ++ env.after_text)
  | client_to_one ↦ handle_to_one_message env message.sender (message.text ++ env.after_text)
  | client_list ↦ handle_list_request env client_fd
  | client_alive ↦ handle_got_alive_message client_fd
  | _ ↦ return tt
]

-- `none` is a `receive_message` that failed.
unfoldable pub handle_client_message : Env → Option Message → ℤ → M (Unit {0})
unfolding dispatch
handle_client_message env none client_fd = return tt
handle_client_message env (some message) client_fd = dispatch env message client_fd

-- The two halves of the loop in `check_if_clients_are_alive`, with ten seconds between them.
unfoldable pub check_alive : Env → M (Unit {0})
check_alive env = do
  lock
  cs ← table
  perform (ask_alive (from_server env server_check_alive (bytes "")) cs)
  set_table (mark_awaiting cs)
  unlock

unfoldable pub drop_silent : M (Unit {0})
drop_silent = do lock; cs ← table; perform (close_dead cs); set_table (drop_dead cs); unlock

-- `pthread_mutex_trylock` takes the mutex if it is free, and its result is ignored.
unfoldable pub cleanup : Env → M (Unit {0})
cleanup env s = done tt (record s {
  locked = true;
  log =
      s.log
      ++ (dismiss (from_server env server_shutdown (bytes "")) s.clients
          ++ (shut s.server_socket ∷ closed s.server_socket ∷ closed s.epoll_fd ∷ []));
})

-- `sigint_handler`, behind which the process has ended.
unfoldable pub sigint_handler : Env → M (Unit {0})
unfolding cleanup
sigint_handler env = cleanup env >> return tt

-- `check_if_clients_are_alive`, for so many rounds; each has the clock of its own messages.
unfoldable pub check_if_clients_are_alive : List Env → M (Unit {0})
unfolding check_alive drop_silent
check_if_clients_are_alive [] = return tt
check_if_clients_are_alive (env ∷ envs) =
    check_alive env >> (drop_silent >> check_if_clients_are_alive envs)
