-- ===== src/Chat/Message/Wire.antt =====
-- What comes out of a packet of cw11/socket_utils.c is what went in.
use sysops.Common.{ℕ, ◌%◌, ◌^◌, ◌≤◌, ◌<◌, ◌≡◌, refl, some, List, [], length, arith, ap, ◌∙◌}
use sysops.CMemory.{write_at, read_at, le_bytes, of_le_bytes, htonl, ntohl}
use sysops.CMemory.Copy.{
  length-write_at, length-read_at, read_at-write_at_self, read_at-write_at_after, read_at_whole,
  read_at-write_at_prefix, write_at-nil,
}
use sysops.CMemory.Words.{
  length-le_bytes, of_le_bytes-le_bytes_4, of_le_bytes-le_bytes_8, htonl-lt, ntohl-htonl,
}
use sysops.Chat.Message.{
  MessageType, code, of_code, client_new, Message, max_client_name, max_message_text,
  max_msg_net_buf, init_message_t, serialize_message_t, deserialize_message_t, receive_message,
  IsCode, IsMessage,
}

of_code-code : (t : MessageType) → IsCode t → of_code (code t) ≡ t
unfolding code of_code
of_code-code client_new h = refl
of_code-code t h = ground arith

code-lt : (t : MessageType) → IsCode t → code t < 2 ^ 32
unfolding code
code-lt client_new h = omega arith
code-lt t h = omega arith

-- Where each field of a message stands in its packet.
record Fields (m : Message) (packet : List ℕ) : Type 0 where
  name : read_at packet 0 64 ≡ m.sender
  kind : read_at packet 64 4 ≡ le_bytes 4 (htonl (code m.type % 2 ^ 32))
  body : read_at packet 68 512 ≡ m.text
  time : read_at packet 580 8 ≡ le_bytes 8 (htonl (m.timestamp % 2 ^ 32))

pub length-serialize_message_t :
    (m : Message) (buffer : List ℕ) → length (serialize_message_t m buffer) ≡ length buffer
unfolding serialize_message_t
length-serialize_message_t m buffer = simp length-write_at

-- Four fields side by side keep out of one another's way.
module _ (buffer a t c d : List ℕ) (la : length a ≡ 64) (lt : length t ≡ 4) (lc : length c ≡ 512)
    (ld : length d ≡ 8) (room : 588 ≤ length buffer) where
  abbrev one : List ℕ
  one = write_at buffer 0 a

  abbrev two : List ℕ
  two = write_at one 64 t

  abbrev three : List ℕ
  three = write_at two 68 c

  abbrev four : List ℕ
  four = write_at three 580 d

  read_name : read_at four 0 64 ≡ a
  read_name =
      read_at-write_at_after three 0 580 64 d (omega arith)
      ∙ read_at-write_at_after two 0 68 64 c (omega arith)
      ∙ read_at-write_at_after one 0 64 64 t (omega arith)
      ∙ read_at-write_at_self buffer 0 64 a la (omega arith)

  read_kind : read_at four 64 4 ≡ t
  read_kind =
      read_at-write_at_after three 64 580 4 d (omega arith)
      ∙ read_at-write_at_after two 64 68 4 c (omega arith)
      ∙ read_at-write_at_self one 64 4 t lt (omega (arith, length-write_at buffer 0 a))

  read_body : read_at four 68 512 ≡ c
  read_body =
      read_at-write_at_after three 68 580 512 d (omega arith)
      ∙ read_at-write_at_self two 68 512 c lc
          (omega (arith, length-write_at buffer 0 a, length-write_at one 64 t))

  read_time : read_at four 580 8 ≡ d
  read_time = read_at-write_at_self three 580 8 d ld (
      omega (arith, length-write_at buffer 0 a, length-write_at one 64 t, length-write_at two 68 c))

module _ {m : Message} (v : IsMessage m) (buffer : List ℕ) (room : 588 ≤ length buffer) where
  abbrev kind_bytes : List ℕ
  kind_bytes = le_bytes 4 (htonl (code m.type % 2 ^ 32))

  abbrev time_bytes : List ℕ
  time_bytes = le_bytes 8 (htonl (m.timestamp % 2 ^ 32))

  serialize_message_t-Fields : Fields m (serialize_message_t m buffer)
  unfolding serialize_message_t
  serialize_message_t-Fields =
      rw (read_at_whole m.sender 64 v.name_size, read_at_whole m.text 512 v.text_size)
        (record {
          name = read_name buffer m.sender kind_bytes m.text time_bytes a t c d room;
          kind = read_kind buffer m.sender kind_bytes m.text time_bytes a t c d room;
          body = read_body buffer m.sender kind_bytes m.text time_bytes a t c d room;
          time = read_time buffer m.sender kind_bytes m.text time_bytes a t c d room;
        })
    where
      a : length m.sender ≡ 64
      a = v.name_size

      t : length kind_bytes ≡ 4
      t = length-le_bytes 4 _

      c : length m.text ≡ 512
      c = v.text_size

      d : length time_bytes ≡ 8
      d = length-le_bytes 8 _

-- The message as it is after 32 bits of its time have gone over the wire.
abbrev pub on_the_wire : Message → Message
on_the_wire m = record m { timestamp = m.timestamp % 2 ^ 32 }

deserialize_message_t_of_Fields :
    {m : Message} (packet : List ℕ)
    → IsCode m.type
    → Fields m packet
    → deserialize_message_t packet ≡ on_the_wire m
unfolding deserialize_message_t
deserialize_message_t_of_Fields {m} packet ok f =
    rw (f.name, f.kind, f.body, f.time)
      (λ i. record {
        sender = m.sender;
        type = same_type i;
        text = m.text;
        timestamp = same_time i;
      })
  where
    same_type : of_code (ntohl (of_le_bytes (le_bytes 4 (htonl (code m.type % 2 ^ 32))))) ≡ m.type
    same_type =
        rw
          (
            of_le_bytes-le_bytes_4 _ (htonl-lt (code m.type % 2 ^ 32)),
            ntohl-htonl (code m.type % 2 ^ 32) (omega arith),
          )
          (ap of_code (omega (arith, code-lt m.type ok)) ∙ of_code-code m.type ok)

    same_time :
        ntohl (of_le_bytes (le_bytes 8 (htonl (m.timestamp % 2 ^ 32))) % 2 ^ 32)
        ≡ m.timestamp % 2 ^ 32
    same_time = rw (of_le_bytes-le_bytes_8 _ (htonl-lt (m.timestamp % 2 ^ 32))) (
        ap htonl (omega (arith, htonl-lt (m.timestamp % 2 ^ 32)))
        ∙ ntohl-htonl (m.timestamp % 2 ^ 32) (omega arith))

-- The first `k` bytes of a packet are enough for its fields.
write_at-Fields :
    {m : Message} (packet buffer : List ℕ) (k : ℕ)
    → 588 ≤ k
    → k ≤ length packet
    → k ≤ length buffer
    → Fields m packet
    → Fields m (write_at buffer 0 (read_at packet 0 k))
write_at-Fields packet buffer k h hp hb f = record {
  name = read_at-write_at_prefix buffer packet k 0 64 (omega arith) hp hb ∙ f.name;
  kind = read_at-write_at_prefix buffer packet k 64 4 (omega arith) hp hb ∙ f.kind;
  body = read_at-write_at_prefix buffer packet k 68 512 (omega arith) hp hb ∙ f.body;
  time = read_at-write_at_prefix buffer packet k 580 8 (omega arith) hp hb ∙ f.time;
}

-- Round trip: if at least the first 588 bytes of the 1024 that `send_message` sends for a
-- well-formed message arrive, then `receive_message` gives back that message, with its time reduced
-- modulo 2^32, whatever the two buffers held before.
pub receive_message-serialize_message_t :
    {m : Message} (sent_buffer recv_buffer : List ℕ) (k : ℕ)
    → IsMessage m
    → length sent_buffer ≡ max_msg_net_buf
    → length recv_buffer ≡ max_msg_net_buf
    → 588 ≤ k
    → k ≤ max_msg_net_buf
    → receive_message (some (read_at (serialize_message_t m sent_buffer) 0 k)) recv_buffer
      ≡ some (on_the_wire m)
unfolding receive_message
receive_message-serialize_message_t {m} sent_buffer recv_buffer k v ls lr lo hi = ap some (
    deserialize_message_t_of_Fields _ v.is_code (
      write_at-Fields _ recv_buffer k lo (omega (arith, length-serialize_message_t m sent_buffer))
        (omega arith) (serialize_message_t-Fields v sent_buffer (omega arith))))

-- When the peer has closed the connection (`recv` returns 0), `receive_message` reports success,
-- and any well-formed message can be what it hands over: the one that was last on the stack.
receive_message-closed :
    (m : Message) (buffer : List ℕ)
    → IsMessage m
    → length buffer ≡ max_msg_net_buf
    → receive_message (some []) (serialize_message_t m buffer) ≡ some (on_the_wire m)
unfolding receive_message
receive_message-closed m buffer v lb = rw (write_at-nil (serialize_message_t m buffer) 0) (
    ap some (
      deserialize_message_t_of_Fields _ v.is_code
        (serialize_message_t-Fields v buffer (omega arith))))

-- `init_message_t` makes a well-formed message of a defined type from memory that is long enough.
pub init_message_t-IsMessage :
    (now : ℕ) (sender text : List ℕ) (t : MessageType)
    → IsCode t
    → max_client_name ≤ length sender
    → max_message_text ≤ length text
    → IsMessage (init_message_t now sender t text)
unfolding init_message_t
init_message_t-IsMessage now sender text t ok hs ht = record {
  name_size = length-read_at sender 0 64 hs;
  text_size = length-read_at text 0 512 ht;
  is_code = ok;
}
