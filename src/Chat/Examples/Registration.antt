-- ===== src/Chat/Examples/Registration.antt =====
-- Clients that come and go.
use sysops.Common.{◌≡◌, refl, true, false, none, some, [], ◌∷◌, ◌++◌, pos, if◌then◌else◌}
use sysops.CMemory.{str_eq, read_at}
use sysops.Chat.Message.{max_client_name, client_alive, client_to_all, client_new}
use sysops.Chat.State.{Server, done, blocked, ◌>>◌}
use sysops.Chat.Registry.{has_name, occupy, reset}
use sysops.Chat.Registry.Names.{lookup, has_free}
use sysops.Chat.Server.{handle_new_client, handle_client_delete, dispatch, check_alive, drop_silent}
use sysops.Chat.Server.Registration.{
  accepted, close_of, register, register_taken_blocks, unregister,
}
use sysops.Chat.Server.Safety.{Returns, Hangs, dispatch-served, dispatch-not_served}
use sysops.Chat.Text.{bytes}
use sysops.Chat.Examples.Rooms.{
  env, boot, ala, ola, table_one, table_two, room_of, table_two-IsTable, one-IsReady, two-IsReady,
  say,
}

-- A table of one entry, which is taken.
abbrev crowded : Server
crowded = record boot {
  clients =
      record { name = ala; socket = pos 5; valid = true; awaiting_alive_response = false } ∷ [];
}

register_example :
    (t : Server) × (handle_new_client env ola (pos 6) (room_of table_one) ≡ done tt t)
    × (t.locked ≡ false)
    × (t.log ≡ [] ++ (accepted env (pos 6) ∷ []))
    × (lookup (bytes "ola") t.clients ≡ (
        if str_eq max_client_name ola (bytes "ola")
        then some (pos 6)
        else lookup (bytes "ola") table_one))
unfolding has_name has_free reset occupy read_at str_eq
register_example = register env ola (bytes "ola") (pos 6) (room_of table_one) refl refl refl

register_taken_blocks_example :
    ((handle_new_client env ala (pos 7) >> dispatch env (say ola client_alive []) (pos 6))
        (room_of table_one)
      ≡ blocked)
    × ((handle_new_client env ala (pos 7) >> check_alive env) (room_of table_one) ≡ blocked)
    × ((handle_new_client env ala (pos 7) >> drop_silent) (room_of table_one) ≡ blocked)
unfolding has_name reset occupy read_at str_eq
register_taken_blocks_example =
    register_taken_blocks env ala (pos 7) (say ola client_alive []) (pos 6) (room_of table_one) refl
      refl refl

unregister_example :
    (t : Server) × (handle_client_delete (bytes "ola") (room_of table_two) ≡ done tt t)
    × (t.locked ≡ false)
    × (lookup ala t.clients
        ≡ (if str_eq max_client_name (bytes "ola") ala then none else lookup ala table_two))
    × (t.log ≡ [] ++ close_of (lookup (bytes "ola") table_two))
unregister_example = unregister (bytes "ola") ala (room_of table_two) refl table_two-IsTable

dispatch-served_example :
    Returns (dispatch env (say ola client_to_all (bytes "hi")) (pos 6) (room_of table_two))
dispatch-served_example =
    dispatch-served env (say ola client_to_all (bytes "hi")) (pos 6) (room_of table_two) two-IsReady
      (record { name_size = refl; text_size = refl; is_code = tt }) tt refl

dispatch-not_served_example :
    Hangs (dispatch env (say ala client_new []) (pos 6) (room_of table_one))
unfolding has_name reset occupy read_at str_eq
dispatch-not_served_example =
    dispatch-not_served env (say ala client_new []) (pos 6) (room_of table_one) one-IsReady refl
