-- ===== src/Chat/Examples/Conversation.antt =====
-- A private message of the chat on its whole way, and the end of a chat.
use sysops.Common.{
  ℕ, true, ◌%◌, ◌^◌, ◌≡◌, ◌↔◌, refl, List, [], ◌∷◌, ◌++◌, some, false, pos, replicate, arith,
}
use sysops.CMemory.{bytes}
use sysops.CMemory.Lines.{IsLine}
use sysops.Chat.Message.{Message}
use sysops.Chat.State.{Server, Effect, sent, done}
use sysops.Chat.Text.Tokens.{IsWord}
use sysops.Chat.Registry.Names.{lookup}
use sysops.Chat.Registry.Delivery.{send_to, Performed, Recipient}
use sysops.Chat.Server.{Env, handle_client_message}
use sysops.Chat.Client.{ClientEnv, waiting, handle_user_input}
use sysops.Chat.Everyone.{handle_user_input-everyone}
use sysops.Chat.Client.Printing.{printed, chat_line}
use sysops.Chat.Screen.{Packet, IsWhole, received, handle_user_input-printed}
use sysops.Chat.Examples.Rooms.{env, ala, table_two, table_two-IsTable, room_of}

abbrev client : ClientEnv
client = record { now = 7; client_id = ala; after_literal = [] }

abbrev line : List ℕ
line = (bytes "to_one " ++ (bytes "ola" ++ (32 ∷ bytes "hi you"))) ++ (10 ∷ 0 ∷ replicate 512 0)

abbrev roomy : Env
roomy = record env { after_text = replicate 512 3 }

abbrev there : Packet
there = record { sent_buffer = replicate 1024 1; recv_buffer = replicate 1024 2; arrived = 588 }

abbrev back : Packet
back = record { sent_buffer = replicate 1024 4; recv_buffer = replicate 1024 5; arrived = 1024 }

there-IsWhole : IsWhole there
there-IsWhole = record {
  sent_size = refl;
  recv_size = refl;
  enough = omega arith;
  all = omega arith;
}

back-IsWhole : IsWhole back
back-IsWhole = record {
  sent_size = refl;
  recv_size = refl;
  enough = omega arith;
  all = omega arith;
}

hi_you-IsLine : IsLine (bytes "hi you")
hi_you-IsLine = (
  ground arith,
  (ground arith, (ground arith, (ground arith, (ground arith, (ground arith, tt))))),
)

ala-IsLine : IsLine (bytes "ala")
ala-IsLine = (ground arith, (ground arith, (ground arith, tt)))

handle_user_input-printed_example :
    (m : Message) × (reply : Message) × (handle_user_input client (pos 4) (line ∷ [])
      ≡ (waiting, sent (pos 4) m ∷ []))
    × (handle_client_message roomy (received there m) (pos 5) (room_of table_two)
        ≡ done tt (record (room_of table_two) {
          locked = false;
          log = [] ++ send_to (lookup (bytes "ola") table_two) reply;
        }))
    × (printed (received back reply ∷ [])
        ≡ chat_line (1700000000 % 2 ^ 32) (some (bytes "ala")) (some (bytes "hi you")) ∷ [])
handle_user_input-printed_example =
    handle_user_input-printed client (pos 4) roomy (pos 5) (room_of table_two) 111 104 (bytes "la")
      (bytes "i you") (replicate 512 0) (bytes "ala") (replicate 60 0) there back word hi_you-IsLine
      (omega arith) refl ala-IsLine (omega arith) (omega arith) (omega arith) (omega arith)
      there-IsWhole back-IsWhole refl
  where
    word : IsWord (bytes "ola")
    word =
        (ground arith, ground arith, (ground arith, ground arith, (ground arith, ground arith, tt)))

abbrev to_everyone : List ℕ
to_everyone = (bytes "to_all " ++ bytes "hi you") ++ (10 ∷ 0 ∷ replicate 512 0)

handle_user_input-everyone_example :
    (m : Message) × (reply : Message) × (effects : List Effect) × (handle_user_input client
        (pos 4)
        (to_everyone ∷ [])
      ≡ (waiting, sent (pos 4) m ∷ []))
    × (handle_client_message roomy (received there m) (pos 5) (room_of table_two)
        ≡ done tt (record (room_of table_two) { locked = false; log = [] ++ effects }))
    × (Performed (sent (pos 6) reply) effects ↔ Recipient m.sender reply (pos 6) table_two)
    × (printed (received back reply ∷ [])
        ≡ chat_line (1700000000 % 2 ^ 32) (some (bytes "ala")) (some (bytes "hi you")) ∷ [])
handle_user_input-everyone_example =
    handle_user_input-everyone client (pos 4) roomy (pos 5) (pos 6) (room_of table_two) 104
      (bytes "i you") (replicate 512 0) (bytes "ala") (replicate 60 0) there back hi_you-IsLine
      (omega arith) refl ala-IsLine (omega arith) (omega arith) (omega arith) (omega arith)
      there-IsWhole back-IsWhole refl table_two-IsTable

-- The server is interrupted while its mutex is locked.
abbrev busy : Server
busy = record (room_of table_two) { locked = true }
