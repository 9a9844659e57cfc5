-- ===== src/Chat/Examples/Loop.antt =====
-- A short life of the server's loop.
use sysops.Common.{refl, true, false, none, some, [], ◌∷◌, pos}
use sysops.Chat.Message.{client_to_all}
use sysops.Chat.Text.{bytes}
use sysops.Chat.Server.Safety.{Returns}
use sysops.Chat.Server.Loop.{
  EpollEvent, on_event, on_check, on_drop, take_turns, take_turns-IsReady,
}
use sysops.Chat.Examples.Rooms.{env, ola, table_two, room_of, two-IsReady, say}

-- A connection on the server's socket, a text, and a descriptor that hangs up.
abbrev opened : EpollEvent
opened = record {
  fd = pos 3;
  is_error = false;
  is_hangup = false;
  is_input = true;
  incoming = record { socket = pos 9; nonblocking = true; added = true } ∷ [];
  received = none;
  env = env;
}

abbrev spoken : EpollEvent
spoken = record opened {
  fd = pos 6;
  incoming = [];
  received = some (say ola client_to_all (bytes "hi"));
}

abbrev gone : EpollEvent
gone = record opened { fd = pos 9; is_hangup = true; incoming = [] }

take_turns-IsReady_example : Returns (
    take_turns
      (on_event opened ∷ on_check env ∷ on_event spoken ∷ on_drop ∷ on_event gone ∷ [])
      (room_of table_two))
take_turns-IsReady_example =
    take_turns-IsReady
      (on_event opened ∷ on_check env ∷ on_event spoken ∷ on_drop ∷ on_event gone ∷ [])
      (room_of table_two) two-IsReady
      (
        tt,
        λ a ra. (
          tt,
          λ b rb. (
            (record { name_size = refl; text_size = refl; is_code = tt }, tt, refl),
            λ c rc. (tt, λ d rd. (tt, λ e re. tt)),
          ),
        ),
      )
