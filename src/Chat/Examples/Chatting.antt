-- ===== src/Chat/Examples/Chatting.antt =====
-- Messages between the clients of a small room.
use sysops.Common.{◌≡◌, refl, [], ◌∷◌, ◌++◌}
use sysops.CMemory.{c_string, read_at}
use sysops.Chat.Message.{Message}
use sysops.Chat.Registry.{occupy, reset, name_list}
use sysops.Chat.Text.{bytes}
use sysops.Chat.Examples.Rooms.{table_two}

two_names : name_list table_two ≡ bytes "ala" ++ (10 ∷ bytes "ola") ++ (10 ∷ [])
unfolding name_list reset occupy read_at c_string
two_names = refl
