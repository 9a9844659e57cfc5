-- ===== src/Chat/Client/Listening.antt =====
-- The listening thread of cw11/client.c, and its registration with the server.
use sysops.Common.{
  ℕ, suc, ◌≡◌, refl, ◌∙◌, ap, Bool, true, false, not, Bool-cases, inl, inr, if◌then◌else◌, Option,
  none, some, List, [], ◌∷◌, ◌++◌, ℤ, map, replicate, arith,
}
use sysops.Chat.Message.{
  Message, MessageType, server_chat_message, server_list_message, server_check_alive, client_alive,
  init_message_t,
}
use sysops.Chat.State.{Effect, sent, Server, done}
use sysops.Chat.Registry.{has_name}
use sysops.Chat.Server.{Env, from_server, handle_new_client}
use sysops.Chat.Server.Registration.{handle_new_client_new, handle_new_client_taken}
use sysops.Chat.Client.{
  ClientEnv, Ending, stopped, from_client, no_text, clean_exit, react, wait_for_messages,
  register_on_server,
}

-- The messages that do not end the thread.
abbrev pub is_expected : MessageType → Bool
is_expected server_chat_message = true
is_expected server_list_message = true
is_expected server_check_alive = true
is_expected _ = false

abbrev pub AllExpected : List Message → Type 0
AllExpected [] = Unit {0}
AllExpected (m ∷ ms) = (is_expected m.type ≡ true) × AllExpected ms

abbrev pub is_check : MessageType → Bool
is_check server_check_alive = true
is_check _ = false

unfoldable pub checks : List Message → ℕ
checks [] = 0
checks (m ∷ ms) = if is_check m.type then suc (checks ms) else checks ms

-- A failed receive, or a message that ends the thread.
abbrev pub Ends : Option Message → Type 0
Ends none = Unit {0}
Ends (some m) = is_expected m.type ≡ false

module _ (env : ClientEnv) (fd : ℤ) where
  abbrev pub alive : Effect
  alive = sent fd (from_client env client_alive (no_text env))

  react_expected :
      (k : MessageType) (n : ℕ) (ending : Ending) (acts : List Effect)
      → is_expected k ≡ true
      → react env fd k (ending, replicate n alive ++ acts)
        ≡ (ending, replicate (if is_check k then suc n else n) alive ++ acts)
  unfolding react
  react_expected server_chat_message n ending acts e = refl
  react_expected server_list_message n ending acts e = refl
  react_expected server_check_alive n ending acts e = refl
  react_expected k n ending acts e = ground arith

  react_other :
      (k : MessageType) (later : Ending × List Effect)
      → is_expected k ≡ false
      → react env fd k later ≡ (stopped, clean_exit env fd)
  unfolding react
  react_other server_chat_message later e = ground arith
  react_other server_list_message later e = ground arith
  react_other server_check_alive later e = ground arith
  react_other k later e = refl

  stops_at :
      (last : Option Message) (more : List (Option Message))
      → Ends last
      → wait_for_messages env fd (last ∷ more) ≡ (stopped, clean_exit env fd)
  unfolding wait_for_messages
  stops_at none more e = refl
  stops_at (some m) more e = react_other m.type (wait_for_messages env fd more) e

-- The listening thread answers: on any chat messages, lists and heartbeats, and then a failed
-- receive or any other message, it sends CLIENT_ALIVE once for each heartbeat, then CLIENT_STOP,
-- and then closes the socket, whatever would come later.
wait_for_messages_lem :
    (env : ClientEnv) (fd : ℤ) (ms : List Message) (last : Option Message)
    (more : List (Option Message))
    → AllExpected ms
    → Ends last
    → wait_for_messages env fd (map some ms ++ (last ∷ more))
      ≡ (stopped, replicate (checks ms) (alive env fd) ++ clean_exit env fd)
unfolding wait_for_messages checks
wait_for_messages_lem env fd [] last more v e = stops_at env fd last more e
wait_for_messages_lem env fd (m ∷ ms) last more v e =
    ap (react env fd m.type) (wait_for_messages_lem env fd ms last more v.1 e)
    ∙ react_expected env fd m.type (checks ms) stopped (clean_exit env fd) v.0

-- A client and a server whose mutex is free: the server handles a registration with exactly one
-- reply on the client's socket, and the client that receives this reply goes on exactly if the name
-- was not registered before.
register_on_server-handle_new_client :
    (env : Env) (name : List ℕ) (fd : ℤ) (s : Server)
    → s.locked ≡ false
    → (t : Server) × (reply : Message) × (handle_new_client env name fd s ≡ done tt t)
      × (t.log ≡ s.log ++ (sent fd reply ∷ []))
      × (register_on_server true (some reply) ≡ not (has_name name s.clients))
unfolding register_on_server from_server init_message_t
register_on_server-handle_new_client env name fd s free =
    elim (Bool-cases (has_name name s.clients)) [
      | inl taken ↦ (_, _, handle_new_client_taken env name fd s free taken, refl, rw taken refl)
      | inr new ↦ (_, _, handle_new_client_new env name fd s free new, refl, rw new refl)
    ]
