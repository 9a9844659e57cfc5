-- ===== src/Chat/Conversation.antt =====
-- The way of a private message in cw11, from the line that a user types in client.c through the
-- packet of socket_utils.c to what server.c sends to the receiver.
use sysops.Common.{
  ℕ, ◌+◌, ◌≤◌, ◌<◌, ◌≡◌, ◌≢◌, refl, ◌∙◌, ap, false, some, List, [], ◌∷◌, ◌++◌, append_assoc,
  length-append, length, ℤ, arith,
}
use sysops.CMemory.{bytes, c_string, read_at}
use sysops.CMemory.Lines.{IsLine, IsLine-append, c_string-line, read_at-line}
use sysops.CMemory.Copy.{length-read_at, read_at_whole}
use sysops.Chat.Message.{
  Message, client_to_one, init_message_t, IsMessage, max_client_name, max_message_text,
  max_msg_net_buf, serialize_message_t, receive_message,
}
use sysops.Chat.Message.Wire.{on_the_wire, receive_message-serialize_message_t}
use sysops.Chat.State.{sent, Server, done}
use sysops.Chat.Text.Tokens.{IsWord}
use sysops.Chat.Registry.Names.{lookup}
use sysops.Chat.Registry.Delivery.{send_to}
use sysops.Chat.Server.{Env, dispatch, handle_client_message, handle_to_one_message}
use sysops.Chat.Server.Chatting.{chat, handle_to_one_message_lem}
use sysops.Chat.Client.{ClientEnv, waiting, from_client, handle_user_input}
use sysops.Chat.Client.Commands.{IsWord-IsLine, read_to_one}

-- A message of the user that has reached the server, when the name and the text stand in it.
to_one_handled :
    (env : Env) (m : Message) (fd : ℤ) (s : Server) (x y : ℕ) (w words behind : List ℕ)
    → m.type ≡ client_to_one
    → m.text ≡ ((x ∷ w) ++ (32 ∷ y ∷ words)) ++ (0 ∷ behind)
    → IsWord (x ∷ w)
    → y ≢ 0
    → s.locked ≡ false
    → handle_client_message env (some m) fd s
      ≡ done tt (record s {
        locked = false;
        log =
            s.log
            ++ send_to
                (lookup (x ∷ w) s.clients)
                (chat env m.sender ((y ∷ words) ++ (0 ∷ (behind ++ env.after_text))));
      })
unfolding handle_client_message dispatch
to_one_handled env m fd s x y w words behind kind text word ne free =
    rw (handle_client_message, dispatch, kind) refl
    ∙ ap (λ t. handle_to_one_message env m.sender t s) (shape ∙ inner)
    ∙ handle_to_one_message_lem env m.sender 0 x w y (words ++ (0 ∷ (behind ++ env.after_text))) s
        word ne free
  where
    shape :
        m.text ++ env.after_text ≡ ((x ∷ w) ++ (32 ∷ y ∷ words)) ++ ((0 ∷ behind) ++ env.after_text)
    shape =
        ap (λ t. t ++ env.after_text) text
        ∙ append_assoc ((x ∷ w) ++ (32 ∷ y ∷ words)) (0 ∷ behind) env.after_text

    inner :
        ((x ∷ w) ++ (32 ∷ y ∷ words)) ++ ((0 ∷ behind) ++ env.after_text)
        ≡ (x ∷ w) ++ (32 ∷ y ∷ (words ++ (0 ∷ (behind ++ env.after_text))))
    inner = append_assoc (x ∷ w) (32 ∷ y ∷ words) (0 ∷ (behind ++ env.after_text))

-- What the receiver prints of the chat message.
reply_text :
    (env : Env) (sender : List ℕ) (y : ℕ) (words behind : List ℕ)
    → IsLine (y ∷ words)
    → length words + 1 < max_message_text
    → c_string max_message_text (chat env sender ((y ∷ words) ++ (0 ∷ behind))).text ≡ y ∷ words
unfolding init_message_t
reply_text env sender y words behind line fits =
    let (t, e) = read_at-line max_message_text (y ∷ words) behind (omega arith) in
    ap (c_string max_message_text) e
    ∙ c_string-line max_message_text (y ∷ words) t line (omega arith)

-- The way, with the chat message as it is made.
pub to_one_way :
    (client : ClientEnv) (socket : ℤ) (env : Env) (fd : ℤ) (s : Server) (x y : ℕ)
    (w words rest sent_buffer recv_buffer : List ℕ) (k : ℕ)
    → IsWord (x ∷ w)
    → IsLine (y ∷ words)
    → length w + length words + 11 < max_message_text
    → max_client_name ≤ length client.client_id
    → max_message_text ≤ length rest
    → length sent_buffer ≡ max_msg_net_buf
    → length recv_buffer ≡ max_msg_net_buf
    → 588 ≤ k
    → k ≤ max_msg_net_buf
    → s.locked ≡ false
    → (m : Message) × (reply : Message) × (handle_user_input client socket
          (((bytes "to_one " ++ ((x ∷ w) ++ (32 ∷ y ∷ words))) ++ (10 ∷ 0 ∷ rest)) ∷ [])
        ≡ (waiting, sent socket m ∷ []))
      × (handle_client_message env
            (receive_message (some (read_at (serialize_message_t m sent_buffer) 0 k)) recv_buffer)
            fd
            s
          ≡ done tt (record s {
            locked = false;
            log = s.log ++ send_to (lookup (x ∷ w) s.clients) reply;
          }))
      × (reply.sender ≡ m.sender)
      × (m.sender ≡ read_at client.client_id 0 max_client_name)
      × (c_string max_message_text reply.text ≡ y ∷ words)
      × (behind : List ℕ) × (reply
          ≡ chat env m.sender ((y ∷ words) ++ (0 ∷ (behind ++ env.after_text))))
unfolding handle_user_input init_message_t
to_one_way client socket env fd s x y w words rest sb rb k word line fits named memory ls lr lo hi
      free =
    (
      m,
      chat env m.sender ((y ∷ words) ++ (0 ∷ (behind.0 ++ env.after_text))),
      rw (handle_user_input, read_to_one client x (w ++ (32 ∷ y ∷ words)) rest is_line short) refl,
      ap (λ o. handle_client_message env o fd s)
            (receive_message-serialize_message_t sb rb k ok ls lr lo hi)
          ∙ to_one_handled env (on_the_wire m) fd s x y w words behind.0 refl behind.1 word line.0
              free,
      read_at_whole m.sender max_client_name ok.name_size,
      refl,
      reply_text env m.sender y words (behind.0 ++ env.after_text) line (omega arith),
      behind.0,
      refl,
    )
  where
    private_text : List ℕ
    private_text = x ∷ (w ++ (32 ∷ y ∷ words))

    is_line : IsLine private_text
    is_line =
        IsLine-append (x ∷ w) (32 ∷ y ∷ words) (IsWord-IsLine (x ∷ w) word) (ground arith, line)

    short : length (w ++ (32 ∷ y ∷ words)) + 9 < max_message_text
    short = omega (arith, length-append w (32 ∷ y ∷ words))

    m : Message
    m = from_client client client_to_one (private_text ++ (0 ∷ 0 ∷ rest))

    behind : (t : List ℕ) × (m.text ≡ private_text ++ (0 ∷ t))
    behind =
        read_at-line max_message_text private_text (0 ∷ rest)
          (omega (arith, length-append w (32 ∷ y ∷ words)))

    ok : IsMessage m
    ok = record {
      name_size = length-read_at client.client_id 0 max_client_name (omega arith);
      text_size =
          length-read_at (private_text ++ (0 ∷ 0 ∷ rest)) 0 max_message_text
            (omega (arith, length-append private_text (0 ∷ 0 ∷ rest)));
      is_code = tt;
    }

-- From a line to the socket of its receiver. A user types `to_one`, a name without spaces, a space
-- and a text that is not empty, all of it shorter than the array, and the memory from the client's
-- name on holds 64 bytes, that behind the line 512. Then the client sends one message; when at
-- least the first 588 bytes of its packet arrive, the server, whose mutex is free, handles what it
-- receives by sending one chat message to the socket of that name, or nothing if it is not
-- registered, with its table unchanged and its mutex free; and that chat message carries the
-- client's name and, up to its NUL, the text as it was typed.
handle_user_input-handle_client_message :
    (client : ClientEnv) (socket : ℤ) (env : Env) (fd : ℤ) (s : Server) (x y : ℕ)
    (w words rest sent_buffer recv_buffer : List ℕ) (k : ℕ)
    → IsWord (x ∷ w)
    → IsLine (y ∷ words)
    → length w + length words + 11 < max_message_text
    → max_client_name ≤ length client.client_id
    → max_message_text ≤ length rest
    → length sent_buffer ≡ max_msg_net_buf
    → length recv_buffer ≡ max_msg_net_buf
    → 588 ≤ k
    → k ≤ max_msg_net_buf
    → s.locked ≡ false
    → (m : Message) × (reply : Message) × (handle_user_input client socket
          (((bytes "to_one " ++ ((x ∷ w) ++ (32 ∷ y ∷ words))) ++ (10 ∷ 0 ∷ rest)) ∷ [])
        ≡ (waiting, sent socket m ∷ []))
      × (handle_client_message env
            (receive_message (some (read_at (serialize_message_t m sent_buffer) 0 k)) recv_buffer)
            fd
            s
          ≡ done tt (record s {
            locked = false;
            log = s.log ++ send_to (lookup (x ∷ w) s.clients) reply;
          }))
      × (reply.sender ≡ m.sender)
      × (m.sender ≡ read_at client.client_id 0 max_client_name)
      × (c_string max_message_text reply.text ≡ y ∷ words)
handle_user_input-handle_client_message client socket env fd s x y w words rest sb rb k word line
      fits named memory ls lr lo hi free =
    let (m, reply, sends, handles, from, name, text, behind, made) =
      to_one_way client socket env fd s x y w words rest sb rb k word line fits named memory ls lr
        lo hi free in
    (m, reply, sends, handles, from, name, text)
