-- ===== src/Chat/Server/Heartbeat.antt =====
-- A round of `check_if_clients_are_alive` of cw11/server.c, with the answers that arrive between
-- its halves.
use sysops.Common.{ℕ, ◌≡◌, refl, ◌∙◌, append_assoc, false, List, [], ◌∷◌, ◌++◌, ℤ}
use sysops.Chat.State.{Server, done, M, ◌>>◌, return}
use sysops.Chat.Text.{bytes}
use sysops.Chat.Message.{server_check_alive}
use sysops.Chat.Registry.{answer, mark_awaiting, drop_dead, ask_alive, close_dead}
use sysops.Chat.Registry.Names.{lookup}
use sysops.Chat.Registry.Table.{IsTable, mark_awaiting-IsTable}
use sysops.Chat.Registry.Alive.{answer_all, kept, HasOwnSockets, lookup-heartbeat}
use sysops.Chat.Registry.Sockets.{
  sockets, silent, each, asking, closing, ask_alive-sockets, close_dead-silent,
}
use sysops.Chat.Server.{Env, from_server, handle_got_alive_message, check_alive, drop_silent}

-- CLIENT_ALIVE messages on these sockets, in their order.
unfoldable pub answers : List ℤ → M (Unit {0})
unfolding handle_got_alive_message
answers [] = return tt
answers (fd ∷ fds) = do handle_got_alive_message fd; answers fds

answers_lem :
    (fds : List ℤ) (s : Server)
    → s.locked ≡ false
    → answers fds s ≡ done tt (record s { locked = false; clients = answer_all fds s.clients })
unfolding answers answer_all
answers_lem [] s free = λ i. done tt (record s { locked = free i })
answers_lem (fd ∷ fds) s free =
    rw free (answers_lem fds (record s { locked = false; clients = answer fd s.clients }) refl)

-- A round of the heartbeat on a ready server in whose table the socket of no valid client stands in
-- an entry before its own: SERVER_CHECK_ALIVE is sent to the socket of each registered client, in
-- the order of the table, the sockets `fds` answer, and then the sockets of the registered clients
-- that are not among those are closed, in the order of the table, and nothing else is done. It
-- returns with the mutex free, and then a name is registered, on the socket it had, exactly if that
-- socket is among those that answered.
pub heartbeat :
    (env : Env) (fds : List ℤ) (n : List ℕ) (s : Server)
    → s.locked ≡ false
    → IsTable s.clients
    → HasOwnSockets s.clients
    → (t : Server) × ((check_alive env >> (answers fds >> drop_silent)) s ≡ done tt t)
      × (t.locked ≡ false)
      × (t.log
          ≡ s.log
            ++ (each (asking (from_server env server_check_alive (bytes ""))) (sockets s.clients)
                ++ each closing (silent fds (sockets s.clients))))
      × (lookup n t.clients ≡ kept fds (lookup n s.clients))
unfolding check_alive drop_silent
heartbeat env fds n s free v own = (
  record s {
    clients = drop_dead (answer_all fds (mark_awaiting s.clients));
    locked = false;
    log =
        s.log
        ++ ask_alive (from_server env server_check_alive (bytes "")) s.clients
        ++ close_dead (answer_all fds (mark_awaiting s.clients));
  },
  rw (free, answers_lem fds marked refl),
  refl,
  append_assoc s.log (ask_alive (from_server env server_check_alive (bytes "")) s.clients)
        (close_dead (answer_all fds (mark_awaiting s.clients)))
      ∙ λ i.
          s.log
          ++ (ask_alive-sockets (from_server env server_check_alive (bytes "")) s.clients i
              ++ close_dead-silent fds s.clients own i),
  lookup-heartbeat fds n s.clients (mark_awaiting-IsTable v).distinct own,
)
  where
    marked : Server
    marked = record s {
      clients = mark_awaiting s.clients;
      locked = false;
      log = s.log ++ ask_alive (from_server env server_check_alive (bytes "")) s.clients;
    }
