-- ===== src/Chat/Screen.antt =====
-- The way of a private message in cw11, from the keyboard of one user to the screen of the other.
use sysops.Common.{
  ℕ, ◌+◌, ◌%◌, ◌^◌, ◌≤◌, ◌<◌, ◌≡◌, refl, ◌∙◌, ap, false, Option, some, List, [], ◌∷◌, ◌++◌, length,
  length-append, ℤ, arith,
}
use sysops.CMemory.{bytes, read_at}
use sysops.CMemory.Lines.{IsLine, read_at-line}
use sysops.CMemory.Copy.{length-read_at, read_at_whole}
use sysops.Chat.Message.{
  Message, server_chat_message, IsMessage, max_client_name, max_message_text, max_msg_net_buf,
  init_message_t, serialize_message_t, receive_message,
}
use sysops.Chat.Message.Wire.{
  on_the_wire, receive_message-serialize_message_t, init_message_t-IsMessage,
}
use sysops.Chat.State.{sent, Server, done}
use sysops.Chat.Text.Tokens.{IsWord}
use sysops.Chat.Registry.Names.{lookup}
use sysops.Chat.Registry.Delivery.{send_to}
use sysops.Chat.Server.{Env, handle_client_message}
use sysops.Chat.Server.Chatting.{chat}
use sysops.Chat.Client.{ClientEnv, waiting, handle_user_input}
use sysops.Chat.Client.Printing.{string_in, string_in-line, chat_line, printed, print_message-chat}
use sysops.Chat.Conversation.{to_one_way}

-- A packet on its way: the buffers of `send_message` and `receive_message`, whatever they hold, and
-- how many bytes of the packet arrive.
pub record Packet : Type 0 where
  pub sent_buffer : List ℕ
  pub recv_buffer : List ℕ
  pub arrived : ℕ

-- The buffers have their sizes, and the fields of the message arrive.
pub record IsWhole (p : Packet) : Type 0 where
  pub sent_size : length p.sent_buffer ≡ max_msg_net_buf
  pub recv_size : length p.recv_buffer ≡ max_msg_net_buf
  pub enough : 588 ≤ p.arrived
  pub all : p.arrived ≤ max_msg_net_buf

-- What is received of a message that is sent.
abbrev pub received : Packet → Message → Option Message
received p m =
    receive_message (some (read_at (serialize_message_t m p.sent_buffer) 0 p.arrived)) p.recv_buffer

pub received_whole :
    (p : Packet) (m : Message) → IsWhole p → IsMessage m → received p m ≡ some (on_the_wire m)
received_whole p m v ok =
    receive_message-serialize_message_t p.sent_buffer p.recv_buffer p.arrived ok v.sent_size
      v.recv_size v.enough v.all

-- A chat message on the screen of its receiver.
pub chat_printed :
    (p : Packet) (env : Env) (sender name rest text behind : List ℕ)
    → IsWhole p
    → sender ≡ name ++ (0 ∷ rest)
    → length sender ≡ max_client_name
    → IsLine name
    → length name < max_client_name
    → IsLine text
    → length text < max_message_text
    → max_message_text ≤ length behind
    → printed (received p (chat env sender (text ++ (0 ∷ behind))) ∷ [])
      ≡ chat_line (env.now % 2 ^ 32) (some name) (some text) ∷ []
unfolding printed init_message_t
chat_printed p env sender name rest text behind v named size is_name fits is_text short memory =
    ap (λ o. printed (o ∷ [])) (received_whole p reply v ok)
    ∙ print_message-chat (on_the_wire reply) name text [] refl
        (ap (string_in max_client_name) (read_at_whole sender max_client_name size ∙ named)
          ∙ string_in-line max_client_name name rest is_name fits)
        (ap (string_in max_message_text) stands.1
          ∙ string_in-line max_message_text text stands.0 is_text short)
  where
    reply : Message
    reply = chat env sender (text ++ (0 ∷ behind))

    ok : IsMessage reply
    ok =
        init_message_t-IsMessage env.now sender (text ++ (0 ∷ behind)) server_chat_message tt
          (omega arith) (omega (arith, length-append text (0 ∷ behind)))

    stands : (t : List ℕ) × (read_at (text ++ (0 ∷ behind)) 0 max_message_text ≡ text ++ (0 ∷ t))
    stands = read_at-line max_message_text text behind short

-- From the keyboard to the screen. A user whose name is a string shorter than 64 bytes types
-- `to_one`, a name without spaces, a space and a text that is not empty, all of it shorter than
-- the array; the memory from the user's name on holds 64 bytes, that behind the line 512, and
-- that behind the text that the server receives 512. Then the client sends one message; when the
-- fields of its packet arrive, the server, whose mutex is free, handles it by sending one chat
-- message to the socket of the second name, or nothing if it is not registered, with its table
-- unchanged and its mutex free; and when the fields of the packet of the chat message arrive, the
-- listening thread of the other client prints one line: the server's time modulo 2^32, the name
-- of the first user, and the text exactly as it was typed.
pub handle_user_input-printed :
    (client : ClientEnv) (socket : ℤ) (env : Env) (fd : ℤ) (s : Server) (x y : ℕ)
    (w words rest name after_name : List ℕ) (p q : Packet)
    → IsWord (x ∷ w)
    → IsLine (y ∷ words)
    → length w + length words + 11 < max_message_text
    → client.client_id ≡ name ++ (0 ∷ after_name)
    → IsLine name
    → length name < max_client_name
    → max_client_name ≤ length client.client_id
    → max_message_text ≤ length rest
    → max_message_text ≤ length env.after_text
    → IsWhole p
    → IsWhole q
    → s.locked ≡ false
    → (m : Message) × (reply : Message) × (handle_user_input client socket
          (((bytes "to_one " ++ ((x ∷ w) ++ (32 ∷ y ∷ words))) ++ (10 ∷ 0 ∷ rest)) ∷ [])
        ≡ (waiting, sent socket m ∷ []))
      × (handle_client_message env (received p m) fd s
          ≡ done tt (record s {
            locked = false;
            log = s.log ++ send_to (lookup (x ∷ w) s.clients) reply;
          }))
      × (printed (received q reply ∷ [])
          ≡ chat_line (env.now % 2 ^ 32) (some name) (some (y ∷ words)) ∷ [])
handle_user_input-printed client socket env fd s x y w words rest name after_name p q word line fits
      named is_name short has_name memory text_memory v u free =
    let (m, reply, sends, handles, from, who, text, behind, made) =
      to_one_way client socket env fd s x y w words rest p.sent_buffer p.recv_buffer p.arrived word
        line fits has_name memory v.sent_size v.recv_size v.enough v.all free in
    let (more, starts) = read_at-line max_client_name name after_name short in
    (
      m,
      reply,
      sends,
      handles,
      ap (λ r. printed (received q r ∷ [])) made
          ∙ chat_printed q env m.sender name more (y ∷ words) (behind ++ env.after_text) u
              (who ∙ ap (λ c. read_at c 0 max_client_name) named ∙ starts)
              (ap length who ∙ length-read_at client.client_id 0 max_client_name (omega arith))
              is_name short line (omega arith) (omega (arith, length-append behind env.after_text)),
    )
