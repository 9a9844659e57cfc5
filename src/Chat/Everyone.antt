-- ===== src/Chat/Everyone.antt =====
-- The way of a message to all in cw11, from the keyboard of one user to the screens of the others.
use sysops.Common.{
  ℕ, ◌+◌, ◌%◌, ◌^◌, ◌≤◌, ◌<◌, ◌≡◌, ◌↔◌, refl, ◌∙◌, ap, false, some, List, [], ◌∷◌, ◌++◌,
  append_assoc, length, length-append, ℤ, arith,
}
use sysops.CMemory.{bytes, read_at}
use sysops.CMemory.Lines.{IsLine, read_at-line}
use sysops.CMemory.Copy.{length-read_at}
use sysops.Chat.Message.{
  Message, client_to_all, IsMessage, max_client_name, max_message_text, init_message_t,
}
use sysops.Chat.Message.Wire.{on_the_wire}
use sysops.Chat.State.{Effect, sent, Server, done}
use sysops.Chat.Registry.Table.{IsTable}
use sysops.Chat.Registry.Delivery.{Performed, Recipient}
use sysops.Chat.Server.{Env, dispatch, handle_client_message, handle_to_all_message}
use sysops.Chat.Server.Chatting.{chat, handle_to_all_message_lem}
use sysops.Chat.Client.{ClientEnv, waiting, from_client, handle_user_input}
use sysops.Chat.Client.Commands.{read_to_all}
use sysops.Chat.Client.Printing.{chat_line, printed}
use sysops.Chat.Screen.{Packet, IsWhole, received, received_whole, chat_printed}

-- A message to all that has reached the server.
to_all_handled :
    (env : Env) (m : Message) (fd to : ℤ) (s : Server) (text : List ℕ)
    → m.type ≡ client_to_all
    → m.text ++ env.after_text ≡ text
    → s.locked ≡ false
    → IsTable s.clients
    → (effects : List Effect) × (handle_client_message env (some m) fd s
        ≡ done tt (record s { locked = false; log = s.log ++ effects }))
      × (Performed (sent to (chat env m.sender text)) effects
          ↔ Recipient m.sender (chat env m.sender text) to s.clients)
unfolding handle_client_message dispatch
to_all_handled env m fd to s text kind shape free v =
    let (effects, handles, who) = handle_to_all_message_lem env m.sender text to s free v in
    (
      effects,
      rw (handle_client_message, dispatch, kind)
          (ap (λ x. handle_to_all_message env m.sender x s) shape ∙ handles),
      who,
    )

-- From the keyboard to the screens. A user whose name is a string shorter than 64 bytes types
-- `to_all`, a space and a text that is not empty, all of it shorter than the array; the memory
-- from the user's name on holds 64 bytes, that behind the line 512, and that behind the text that
-- the server receives 512. Then the client sends one message; when the fields of its packet
-- arrive, the server, whose mutex is free and whose table is well formed, handles it with its
-- table unchanged and its mutex free, and sends a chat message to a socket exactly if some
-- registered name other than the user's has that socket; and when the fields of the packet of the
-- chat message arrive, the listening thread of a client prints one line: the server's time modulo
-- 2^32, the name of the user, and the text exactly as it was typed.
pub handle_user_input-everyone :
    (client : ClientEnv) (socket : ℤ) (env : Env) (fd to : ℤ) (s : Server) (y : ℕ)
    (words rest name after_name : List ℕ) (p q : Packet)
    → IsLine (y ∷ words)
    → length words + 9 < max_message_text
    → client.client_id ≡ name ++ (0 ∷ after_name)
    → IsLine name
    → length name < max_client_name
    → max_client_name ≤ length client.client_id
    → max_message_text ≤ length rest
    → max_message_text ≤ length env.after_text
    → IsWhole p
    → IsWhole q
    → s.locked ≡ false
    → IsTable s.clients
    → (m : Message) × (reply : Message) × (effects : List Effect) × (handle_user_input client socket
          (((bytes "to_all " ++ (y ∷ words)) ++ (10 ∷ 0 ∷ rest)) ∷ [])
        ≡ (waiting, sent socket m ∷ []))
      × (handle_client_message env (received p m) fd s
          ≡ done tt (record s { locked = false; log = s.log ++ effects }))
      × (Performed (sent to reply) effects ↔ Recipient m.sender reply to s.clients)
      × (printed (received q reply ∷ [])
          ≡ chat_line (env.now % 2 ^ 32) (some name) (some (y ∷ words)) ∷ [])
unfolding handle_user_input init_message_t
handle_user_input-everyone client socket env fd to s y words rest name after_name p q line fits
      named is_name short has_name memory text_memory v u free ready =
    (
      m,
      chat env m.sender whole,
      handled.0,
      rw (handle_user_input, read_to_all client y words rest line fits) refl,
      ap (λ o. handle_client_message env o fd s) (received_whole p m v ok) ∙ handled.1,
      handled.2,
      chat_printed q env m.sender name starts.0 (y ∷ words) (stands.0 ++ env.after_text) u
          (ap (λ c. read_at c 0 max_client_name) named ∙ starts.1) ok.name_size is_name short line
          (omega arith) (omega (arith, length-append stands.0 env.after_text)),
    )
  where
    m : Message
    m = from_client client client_to_all ((y ∷ words) ++ (0 ∷ 0 ∷ rest))

    stands : (t : List ℕ) × (m.text ≡ (y ∷ words) ++ (0 ∷ t))
    stands = read_at-line max_message_text (y ∷ words) (0 ∷ rest) (omega arith)

    starts : (t : List ℕ) × (read_at (name ++ (0 ∷ after_name)) 0 max_client_name ≡ name ++ (0 ∷ t))
    starts = read_at-line max_client_name name after_name short

    whole : List ℕ
    whole = (y ∷ words) ++ (0 ∷ (stands.0 ++ env.after_text))

    ok : IsMessage m
    ok = record {
      name_size = length-read_at client.client_id 0 max_client_name (omega arith);
      text_size =
          length-read_at ((y ∷ words) ++ (0 ∷ 0 ∷ rest)) 0 max_message_text
            (omega (arith, length-append (y ∷ words) (0 ∷ 0 ∷ rest)));
      is_code = tt;
    }

    handled :
        (effects : List Effect) × (handle_client_message env (some (on_the_wire m)) fd s
          ≡ done tt (record s { locked = false; log = s.log ++ effects }))
        × (Performed (sent to (chat env m.sender whole)) effects
            ↔ Recipient m.sender (chat env m.sender whole) to s.clients)
    handled =
        to_all_handled env (on_the_wire m) fd to s whole refl
          (ap (λ x. x ++ env.after_text) stands.1
            ∙ append_assoc (y ∷ words) (0 ∷ stands.0) env.after_text)
          free ready
