-- ===== src/Chat/Server/Safety.antt =====
-- Which messages the server of cw11/server.c gets through: the whole `switch` of
-- `handle_client_message`, and the start `init_clients`.
use sysops.Common.{
  ℕ, ◌+◌, ◌≡◌, ◌⊎◌, inl, inr, refl, Bool, true, false, ◌&&◌, not, Option, none, some, List, [], ◌∷◌,
  ◌++◌, ℤ, arith, leb, length,
}
use sysops.Chat.Message.{
  Message, MessageType, client_new, client_list, client_to_all, client_to_one, client_stop,
  client_alive, max_message_text, max_clients, IsMessage, server_chat_message, init_message_t,
}
use sysops.Chat.State.{Client, sent, Server, Outcome, done, fault}
use sysops.Chat.Text.{strtok, strtok_rest}
use sysops.Chat.Registry.{has_name, occupy, answer, broadcast, deliver, name_list, names_end, reset}
use sysops.Chat.Registry.Table.{IsTable, IsFd, occupy-IsTable, vacate-IsTable, answer-IsTable}
use sysops.Chat.Registry.Reset.{AllNames, reset-IsTable}
use sysops.Chat.Server.{Env, init_clients, to_token, dispatch}
use sysops.Chat.Server.Listing.{list_reply, handle_list_request_fits}
use sysops.Chat.Server.Registration.{
  handle_new_client_new, handle_new_client_taken, handle_client_delete_lem, accepted, refused,
  deleted,
}

-- A receiver and a text behind it.
abbrev pub has_text : Option (List ℕ × List ℕ) → Bool
has_text none = false
has_text (some (receiver, [])) = false
has_text (some (receiver, x ∷ rest)) = not (leb x 0)

-- A new name that is free, a list that fits, a private message with its text; and any other
-- message.
abbrev pub served : Env → Message → List Client → MessageType → Bool
served env m cs client_new = not (has_name m.sender cs)
served env m cs client_list = names_end cs && leb (length (name_list cs) + 1) max_message_text
served env m cs client_to_one = has_text (strtok (m.text ++ env.after_text))
served env m cs _ = true

-- The server is back at its loop: the mutex is free and the table well formed.
pub record IsReady (s : Server) : Type 0 where
  pub unlocked : s.locked ≡ false
  pub table : IsTable s.clients

abbrev pub Returns : Outcome (Unit {0}) → Type 0
Returns o = (t : Server) × (o ≡ done tt t) × IsReady t

abbrev pub Hangs : Outcome (Unit {0}) → Type 0
Hangs o = (o ≡ fault) ⊎ ((t : Server) × (o ≡ done tt t) × (t.locked ≡ true))

to_token_text :
    (env : Env) (sender : List ℕ) (s : Server) (o : Option (List ℕ × List ℕ))
    → IsReady s
    → has_text o ≡ true
    → Returns (to_token env sender o s)
unfolding to_token strtok_rest
to_token_text env sender s none r h = cc
to_token_text env sender s (some (receiver, [])) r h = cc
to_token_text env sender s (some (receiver, x ∷ rest)) r h = (
  record s {
    locked = false;
    log =
        s.log
        ++ deliver receiver (init_message_t env.now sender server_chat_message (x ∷ rest))
            s.clients;
  },
  ground (arith, r.unlocked),
  record { unlocked = refl; table = r.table },
)

to_token_no_text :
    (env : Env) (sender : List ℕ) (s : Server) (o : Option (List ℕ × List ℕ))
    → has_text o ≡ false
    → to_token env sender o s ≡ fault
unfolding to_token strtok_rest
to_token_no_text env sender s none h = refl
to_token_no_text env sender s (some (receiver, [])) h = refl
to_token_no_text env sender s (some (receiver, x ∷ rest)) h = ground arith

module _ (env : Env) (m : Message) (fd : ℤ) (s : Server) (r : IsReady s) where
  open r use {unlocked, table}

  serve :
      (k : MessageType)
      → m.type ≡ k
      → IsMessage m
      → IsFd fd
      → served env m s.clients k ≡ true
      → Returns (dispatch env m fd s)
  unfolding dispatch
  serve client_new e v f h = (
    record s {
      clients = occupy m.sender fd s.clients;
      locked = false;
      log = s.log ++ (accepted env fd ∷ []);
    },
    rw e (handle_new_client_new env m.sender fd s unlocked (ground arith)),
    record {
      unlocked = refl;
      table = occupy-IsTable table m.sender fd (omega (arith, v.name_size)) f (ground arith);
    },
  )
  serve client_list e v f h = (
    record s { locked = false; log = s.log ++ (sent fd (list_reply env s.clients) ∷ []) },
    rw e (handle_list_request_fits env fd s unlocked h),
    record { unlocked = refl; table = table },
  )
  serve client_to_all e v f h = (
    record s {
      locked = false;
      log =
          s.log
          ++ broadcast m.sender
              (init_message_t env.now m.sender server_chat_message (m.text ++ env.after_text))
              s.clients;
    },
    rw (e, unlocked),
    record { unlocked = refl; table = table },
  )
  serve client_to_one e v f h =
      let (t, runs, ready) = to_token_text env m.sender s (strtok (m.text ++ env.after_text)) r h in
      (t, rw e runs, ready)
  serve client_stop e v f h = (
    deleted m.sender s unlocked,
    rw e (handle_client_delete_lem m.sender s unlocked table),
    record { unlocked = refl; table = vacate-IsTable table m.sender },
  )
  serve client_alive e v f h = (
    record s { clients = answer fd s.clients; locked = false },
    rw (e, unlocked),
    record { unlocked = refl; table = answer-IsTable table fd },
  )
  serve k e v f h = (s, rw e, r)

  not_served :
      (k : MessageType)
      → m.type ≡ k
      → served env m s.clients k ≡ false
      → Hangs (dispatch env m fd s)
  unfolding dispatch
  not_served client_new e h = inr (
    record s { locked = true; log = s.log ++ (refused env fd ∷ []) },
    rw e (handle_new_client_taken env m.sender fd s unlocked (ground arith)),
    refl,
  )
  not_served client_list e h = inl (rw (e, unlocked, h))
  not_served client_to_one e h =
      inl (rw e (to_token_no_text env m.sender s (strtok (m.text ++ env.after_text)) h))
  not_served k e h = cc

-- A ready server (mutex free, table well formed) that gets a well-formed message on an open socket
-- returns ready from the handler, if the message is served: a registration under a name that is
-- not taken, a list request whose names end in their arrays and fit in 512 bytes, a private
-- message with a receiver and a text, or any other message.
pub dispatch-served :
    (env : Env) (m : Message) (fd : ℤ) (s : Server)
    → IsReady s
    → IsMessage m
    → IsFd fd
    → served env m s.clients m.type ≡ true
    → Returns (dispatch env m fd s)
dispatch-served env m fd s r v f h = serve env m fd s r m.type refl v f h

-- A message that is not served makes a ready server touch memory that C leaves undefined, or return
-- with the mutex still locked.
pub dispatch-not_served :
    (env : Env) (m : Message) (fd : ℤ) (s : Server)
    → IsReady s
    → served env m s.clients m.type ≡ false
    → Hangs (dispatch env m fd s)
dispatch-not_served env m fd s r h = not_served env m fd s r m.type refl h

-- `init_clients` makes any server with 100 entries, whose mutex is free, ready.
init_clients-IsReady :
    (s : Server)
    → s.locked ≡ false
    → length s.clients ≡ max_clients
    → AllNames s.clients
    → Returns (init_clients s)
unfolding init_clients
init_clients-IsReady s free size names = (
  record s { clients = reset s.clients; locked = false },
  rw free,
  record { unlocked = refl; table = reset-IsTable s.clients size names },
)
