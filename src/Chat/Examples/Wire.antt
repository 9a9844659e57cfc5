-- ===== src/Chat/Examples/Wire.antt =====
-- A message through a packet.
use sysops.Common.{◌≡◌, refl, some, replicate, arith}
use sysops.CMemory.{read_at, write_at, le_bytes, of_le_bytes, htonl}
use sysops.Chat.Message.{
  Message, client_to_all, IsMessage, code, of_code, serialize_message_t, deserialize_message_t,
  receive_message,
}
use sysops.Chat.Message.Wire.{on_the_wire, receive_message-serialize_message_t}
use sysops.Chat.Text.{bytes}
use sysops.Chat.Examples.Rooms.{ala, say}

abbrev hello : Message
hello = say ala client_to_all (bytes "hello")

hello-IsMessage : IsMessage hello
hello-IsMessage = record { name_size = refl; text_size = refl; is_code = tt }

-- 588 of the 1024 bytes arrive.
receive_message-serialize_message_t_example :
    receive_message
      (some (read_at (serialize_message_t hello (replicate 1024 1)) 0 588))
      (replicate 1024 2)
    ≡ some (on_the_wire hello)
receive_message-serialize_message_t_example =
    receive_message-serialize_message_t (replicate 1024 1) (replicate 1024 2) 588 hello-IsMessage
      refl refl (omega arith) (omega arith)

round_trip_runs :
    deserialize_message_t (serialize_message_t hello (replicate 1024 1)) ≡ on_the_wire hello
unfolding deserialize_message_t serialize_message_t read_at write_at le_bytes of_le_bytes htonl code
    of_code
round_trip_runs = refl
