-- ===== src/Chat/Server/Registration.antt =====
-- Clients that come and go: `handle_new_client` and `handle_client_delete` of cw11/server.c.
use sysops.Common.{
  ℕ, ◌≡◌, refl, Bool, true, false, Option, none, some, List, [], ◌∷◌, ◌++◌, ℤ, pos, negsuc, ap, ◌∙◌,
  if◌then◌else◌, append-nil,
}
use sysops.CMemory.{str_eq}
use sysops.Chat.Message.{
  Message, MessageType, client_new, client_list, client_to_all, client_stop, client_alive,
  server_ok_register, server_failure_register, max_client_name,
}
use sysops.Chat.State.{Effect, sent, closed, Server, done, blocked, ◌>>◌}
use sysops.Chat.Text.{bytes}
use sysops.Chat.Registry.{has_name, occupy, vacate}
use sysops.Chat.Registry.Names.{
  lookup, has_free, lookup-occupy, lookup-vacate, occupy-full, has_name-eq-lookup,
}
use sysops.Chat.Registry.Table.{IsTable, lookup-IsFd}
use sysops.Chat.Registry.Delivery.{socket_to_close-lookup}
use sysops.Chat.Server.{
  Env, from_server, handle_new_client, handle_client_delete, dispatch, check_alive, drop_silent,
}

-- The reply to a registration.
abbrev pub accepted : Env → ℤ → Effect
accepted env fd = sent fd (from_server env server_ok_register (bytes "successfully registered"))

abbrev pub refused : Env → ℤ → Effect
refused env fd =
    sent fd (from_server env server_failure_register (bytes "identifier already taken"))

module _ (env : Env) (name : List ℕ) (fd : ℤ) (s : Server) (free : s.locked ≡ false) where
  pub handle_new_client_new :
      has_name name s.clients ≡ false
      → handle_new_client env name fd s
        ≡ done tt (record s {
          clients = occupy name fd s.clients;
          locked = false;
          log = s.log ++ (accepted env fd ∷ []);
        })
  unfolding handle_new_client
  handle_new_client_new new = rw (free, new)

  pub handle_new_client_taken :
      has_name name s.clients ≡ true
      → handle_new_client env name fd s
        ≡ done tt (record s { locked = true; log = s.log ++ (refused env fd ∷ []) })
  unfolding handle_new_client
  handle_new_client_taken taken = rw (free, taken)

-- Registering a new name while the table has a free entry: `handle_new_client` returns with the
-- mutex released, the only effect is the reply SERVER_OK_REGISTER on that socket, and afterwards a
-- name is looked up to the new socket if it equals the new name, and as before otherwise.
pub register :
    (env : Env) (name n : List ℕ) (fd : ℤ) (s : Server)
    → s.locked ≡ false
    → has_name name s.clients ≡ false
    → has_free s.clients ≡ true
    → (t : Server) × (handle_new_client env name fd s ≡ done tt t)
      × (t.locked ≡ false)
      × (t.log ≡ s.log ++ (accepted env fd ∷ []))
      × (lookup n t.clients
          ≡ (if str_eq max_client_name name n then some fd else lookup n s.clients))
register env name n fd s free new room = (
  record s {
    clients = occupy name fd s.clients;
    locked = false;
    log = s.log ++ (accepted env fd ∷ []);
  },
  handle_new_client_new env name fd s free new,
  refl,
  refl,
  lookup-occupy name fd n s.clients new room,
)

-- With a full table a new name is told SERVER_OK_REGISTER as well, but the table stays as it was
-- and the name is not registered.
register_full :
    (env : Env) (name : List ℕ) (fd : ℤ) (s : Server)
    → s.locked ≡ false
    → has_name name s.clients ≡ false
    → has_free s.clients ≡ false
    → (t : Server) × (handle_new_client env name fd s ≡ done tt t)
      × (t.log ≡ s.log ++ (accepted env fd ∷ []))
      × (t.clients ≡ s.clients)
      × (lookup name t.clients ≡ none)
register_full env name fd s free new full = (
  record s {
    clients = occupy name fd s.clients;
    locked = false;
    log = s.log ++ (accepted env fd ∷ []);
  },
  handle_new_client_new env name fd s free new,
  refl,
  occupy-full name fd s.clients full,
  ap (lookup name) (occupy-full name fd s.clients full) ∙ has_name-eq-lookup name s.clients new,
)

-- The message types whose handlers begin with the mutex.
abbrev pub needs_mutex : MessageType → Bool
needs_mutex client_new = true
needs_mutex client_list = true
needs_mutex client_to_all = true
needs_mutex client_stop = true
needs_mutex client_alive = true
needs_mutex _ = false

dispatch_locked :
    (env : Env) (m : Message) (fd : ℤ) (s : Server)
    → needs_mutex m.type ≡ true
    → s.locked ≡ true
    → dispatch env m fd s ≡ blocked
unfolding dispatch
dispatch_locked env m fd s h l = by_type m.type h refl
  where
    by_type : (k : MessageType) → needs_mutex k ≡ true → m.type ≡ k → dispatch env m fd s ≡ blocked
    by_type client_new h e = rw (e, l)
    by_type client_list h e = rw (e, l)
    by_type client_to_all h e = rw (e, l)
    by_type client_stop h e = rw (e, l)
    by_type client_alive h e = rw (e, l)
    by_type k h e = cc

-- A registration under a taken name is refused with the mutex still held: the next message of type
-- CLIENT_NEW, CLIENT_LIST, CLIENT_TO_ALL, CLIENT_STOP or CLIENT_ALIVE, from whatever client, blocks
-- the server for ever, and so do both halves of the heartbeat.
pub register_taken_blocks :
    (env : Env) (name : List ℕ) (fd : ℤ) (m : Message) (other : ℤ) (s : Server)
    → s.locked ≡ false
    → has_name name s.clients ≡ true
    → needs_mutex m.type ≡ true
    → ((handle_new_client env name fd >> dispatch env m other) s ≡ blocked)
      × ((handle_new_client env name fd >> check_alive env) s ≡ blocked)
      × ((handle_new_client env name fd >> drop_silent) s ≡ blocked)
unfolding check_alive drop_silent
register_taken_blocks env name fd m other s free taken h =
    rw (handle_new_client_taken env name fd s free taken)
      (dispatch_locked env m other _ h refl, refl, refl)

abbrev pub close_of : Option ℤ → List Effect
close_of none = []
close_of (some socket) = closed socket ∷ []

module _ (name : List ℕ) (s : Server) (free : s.locked ≡ false) where
  abbrev pub deleted : Server
  deleted = record s {
    clients = vacate name s.clients;
    locked = false;
    log = s.log ++ close_of (lookup name s.clients);
  }

  delete_missing : lookup name s.clients ≡ none → handle_client_delete name s ≡ done tt deleted
  unfolding handle_client_delete
  delete_missing e = rw (free, socket_to_close-lookup name s.clients, e, append-nil)

  delete_open :
      (k : ℕ) → lookup name s.clients ≡ some (pos k) → handle_client_delete name s ≡ done tt deleted
  unfolding handle_client_delete
  delete_open k e = rw (free, socket_to_close-lookup name s.clients, e)

  pub handle_client_delete_lem : IsTable s.clients → handle_client_delete name s ≡ done tt deleted
  handle_client_delete_lem v = by_lookup (lookup name s.clients) refl
    where
      by_lookup :
          (o : Option ℤ) → lookup name s.clients ≡ o → handle_client_delete name s ≡ done tt deleted
      by_lookup none e = delete_missing e
      by_lookup (some (pos k)) e = delete_open k e
      by_lookup (some (negsuc k)) e = absurd (lookup-IsFd name s.clients v.clients e)

-- Deleting a name: `handle_client_delete` returns with the mutex released; the name is registered
-- no more and every other name is looked up as before; the socket of the name, if it was
-- registered, is closed, and nothing else is done.
pub unregister :
    (name n : List ℕ) (s : Server)
    → s.locked ≡ false
    → IsTable s.clients
    → (t : Server) × (handle_client_delete name s ≡ done tt t)
      × (t.locked ≡ false)
      × (lookup n t.clients ≡ (if str_eq max_client_name name n then none else lookup n s.clients))
      × (t.log ≡ s.log ++ close_of (lookup name s.clients))
unregister name n s free v = (
  deleted name s free,
  handle_client_delete_lem name s free v,
  refl,
  lookup-vacate name n s.clients v.distinct,
  refl,
)
