-- ===== src/Chat/Examples/Heartbeat.antt =====
-- Of two clients one answers.
use sysops.Common.{◌++◌, ◌≡◌, refl, false, none, some, [], ◌∷◌, pos, replicate}
use sysops.CMemory.{read_at, str_eq}
use sysops.Chat.State.{Server, done, ◌>>◌, closed}
use sysops.Chat.Registry.{occupy, reset}
use sysops.Chat.Registry.Names.{lookup}
use sysops.Chat.Registry.Alive.{kept, elem, is_in_use, HasOwnSockets-reset}
use sysops.Chat.Message.{server_check_alive}
use sysops.Chat.Registry.Sockets.{sockets, silent, each, asking, closing}
use sysops.Chat.Server.{check_alive, drop_silent, from_server}
use sysops.Chat.Server.Heartbeat.{answers, heartbeat}
use sysops.Chat.Text.{bytes}
use sysops.Chat.Examples.Rooms.{env, blank, table_two, room_of, table_two-IsTable}

heartbeat_example :
    (t : Server) × ((check_alive env >> (answers (pos 6 ∷ []) >> drop_silent)) (room_of table_two)
      ≡ done tt t)
    × (t.locked ≡ false)
    × (t.log
        ≡ []
          ++ (each (asking (from_server env server_check_alive (bytes ""))) (sockets table_two)
              ++ each closing (silent (pos 6 ∷ []) (sockets table_two))))
    × (lookup (bytes "ola") t.clients ≡ kept (pos 6 ∷ []) (lookup (bytes "ola") table_two))
unfolding occupy reset is_in_use
heartbeat_example =
    heartbeat env (pos 6 ∷ []) (bytes "ola") (room_of table_two) refl table_two-IsTable
      (refl, (refl, HasOwnSockets-reset (replicate 98 blank)))

ola_stays : kept (pos 6 ∷ []) (lookup (bytes "ola") table_two) ≡ some (pos 6)
unfolding elem lookup occupy reset read_at str_eq
ola_stays = refl

ala_goes : kept (pos 6 ∷ []) (lookup (bytes "ala") table_two) ≡ none
unfolding elem lookup occupy reset read_at str_eq
ala_goes = refl

-- The client that is silent loses its connection.
ala_closed : each closing (silent (pos 6 ∷ []) (sockets table_two)) ≡ closed (pos 5) ∷ []
unfolding each silent elem sockets occupy reset
ala_closed = refl
