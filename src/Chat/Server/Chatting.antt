-- ===== src/Chat/Server/Chatting.antt =====
-- Messages between clients: `handle_to_all_message` and `handle_to_one_message`
-- of cw11/server.c.
use sysops.Common.{
  ℕ, ◌≡◌, ◌≢◌, ◌↔◌, refl, true, false, some, List, [], ◌∷◌, ◌++◌, ℤ, arith, replicate,
}
use sysops.CMemory.{str_eq}
use sysops.Chat.Message.{Message, server_chat_message, init_message_t, max_client_name}
use sysops.Chat.State.{Effect, sent, Server, done, fault, ◌>>◌}
use sysops.Chat.Text.{strtok_rest}
use sysops.Chat.Text.Tokens.{IsWord, strtok-word, strtok-last}
use sysops.Chat.Registry.{has_name, occupy, broadcast}
use sysops.Chat.Registry.Names.{lookup, has_free, lookup-occupy}
use sysops.Chat.Registry.Table.{IsTable}
use sysops.Chat.Registry.Delivery.{
  Performed, Recipient, Recipient-broadcast, broadcast_of_Recipient, send_to, deliver-lookup,
}
use sysops.Chat.Server.{Env, handle_new_client, handle_to_all_message, handle_to_one_message}
use sysops.Chat.Server.Registration.{accepted, handle_new_client_new}

-- The chat message that a handler makes of a sender and a text.
abbrev pub chat : Env → List ℕ → List ℕ → Message
chat env sender text = init_message_t env.now sender server_chat_message text

-- `handle_to_all_message` returns with the mutex released and the table unchanged. The chat message
-- is sent to a socket exactly if some registered name other than the sender's has that socket.
pub handle_to_all_message_lem :
    (env : Env) (sender text : List ℕ) (fd : ℤ) (s : Server)
    → s.locked ≡ false
    → IsTable s.clients
    → (effects : List Effect) × (handle_to_all_message env sender text s
        ≡ done tt (record s { locked = false; log = s.log ++ effects }))
      × (Performed (sent fd (chat env sender text)) effects
          ↔ Recipient sender (chat env sender text) fd s.clients)
unfolding handle_to_all_message
handle_to_all_message_lem env sender text fd s free v = (
  broadcast sender (chat env sender text) s.clients,
  rw free,
  (
    Recipient-broadcast sender (chat env sender text) fd s.clients v.distinct,
    λ r. broadcast_of_Recipient sender (chat env sender text) fd r.0 s.clients r.1 r.2,
  ),
)

module _ (env : Env) (sender : List ℕ) (spaces x : ℕ) (w rest : List ℕ)
    (word : IsWord (x ∷ w)) where
  to_one-strtok :
      (s : Server) (message_text : List ℕ)
      → s.locked ≡ false
      → strtok_rest rest ≡ some message_text
      → handle_to_one_message env sender (replicate spaces 32 ++ ((x ∷ w) ++ (32 ∷ rest))) s
        ≡ done tt (record s {
          locked = false;
          log = s.log ++ send_to (lookup (x ∷ w) s.clients) (chat env sender message_text);
        })
  unfolding handle_to_one_message
  to_one-strtok s message_text free e = rw (
    strtok-word x w rest word spaces,
    e,
    free,
    deliver-lookup (x ∷ w) (chat env sender message_text) s.clients,
  )

-- A private message of some spaces, a receiver's name without spaces, a space and a text that is
-- not empty: `handle_to_one_message` returns with the mutex released and the table unchanged; the
-- text is sent to the socket of that name if it is registered, and nothing is sent otherwise.
pub handle_to_one_message_lem :
    (env : Env) (sender : List ℕ) (spaces x : ℕ) (w : List ℕ) (y : ℕ) (text : List ℕ) (s : Server)
    → IsWord (x ∷ w)
    → y ≢ 0
    → s.locked ≡ false
    → handle_to_one_message env sender (replicate spaces 32 ++ ((x ∷ w) ++ (32 ∷ y ∷ text))) s
      ≡ done tt (record s {
        locked = false;
        log = s.log ++ send_to (lookup (x ∷ w) s.clients) (chat env sender (y ∷ text));
      })
unfolding strtok_rest
handle_to_one_message_lem env sender spaces x w y text s word ne free =
    to_one-strtok env sender spaces x w (y ∷ text) word s (y ∷ text) free (ground arith)

-- A private message that names a receiver and has no text behind the name, with or without a space,
-- makes the server copy from a null pointer.
handle_to_one_message_empty :
    (env : Env) (sender : List ℕ) (spaces x : ℕ) (w rest : List ℕ) (s : Server)
    → IsWord (x ∷ w)
    → (handle_to_one_message env sender (replicate spaces 32 ++ ((x ∷ w) ++ (32 ∷ 0 ∷ rest))) s
        ≡ fault)
      × (handle_to_one_message env sender (replicate spaces 32 ++ ((x ∷ w) ++ (0 ∷ rest))) s
          ≡ fault)
unfolding handle_to_one_message strtok_rest
handle_to_one_message_empty env sender spaces x w rest s word =
    (rw (strtok-word x w (0 ∷ rest) word spaces), rw (strtok-last x w rest word spaces))

-- Registration and private messages together: once a new name is registered while the table has a
-- free entry, a private message to that name goes to the socket that registered it, behind the
-- reply.
register-to_one :
    (env : Env) (name sender : List ℕ) (fd : ℤ) (x : ℕ) (w : List ℕ) (y : ℕ) (text : List ℕ)
    (s : Server)
    → s.locked ≡ false
    → has_name name s.clients ≡ false
    → has_free s.clients ≡ true
    → IsWord (x ∷ w)
    → str_eq max_client_name name (x ∷ w) ≡ true
    → y ≢ 0
    → (handle_new_client env name fd
          >> handle_to_one_message env sender ((x ∷ w) ++ (32 ∷ y ∷ text)))
        s
      ≡ done tt (record s {
        clients = occupy name fd s.clients;
        locked = false;
        log = s.log ++ (accepted env fd ∷ []) ++ (sent fd (chat env sender (y ∷ text)) ∷ []);
      })
register-to_one env name sender fd x w y text s free new room word same ne = rw (
  handle_new_client_new env name fd s free new,
  handle_to_one_message_lem env sender 0 x w y text registered word ne refl,
  lookup-occupy name fd (x ∷ w) s.clients new room,
  same,
)
  where
    registered : Server
    registered = record s {
      clients = occupy name fd s.clients;
      locked = false;
      log = s.log ++ (accepted env fd ∷ []);
    }
