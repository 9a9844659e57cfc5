-- ===== src/MsgQueue/Session.antt =====
-- The client of cw07 and the server together: what a whole session does to the room.
use sysops.Common.{ℕ, ◌≡◌, true, false, some, List, [], ◌∷◌, ◌++◌, ℤ, pos}
use sysops.MsgQueue.{receive_id, Msg, is_negative}
use sysops.MsgQueue.Room.{Room}
use sysops.MsgQueue.Refine.{sends as sends_of}
use sysops.MsgQueue.Client.{sends, Results, init_msg}
use sysops.MsgQueue.Arrival.{exit_msg}
use sysops.MsgQueue.Posting.{from_queue, texts}

-- The results of a session in which all calls work, with `id_msg` from the server.
abbrev pub AllWork : Results → Msg → Type 0
AllWork r m =
    (is_negative r.client_q ≡ false)
    × (is_negative r.server_q ≡ false)
    × (r.init_sent ≡ true)
    × (r.id_msg ≡ some m)
    × (r.forks ≡ true)

-- The messages of the session, as they come to the server from queue `q`, when the exit comes
-- behind the texts `before` and in front of the texts `behind`.
session : ℤ → ℤ → List ℕ → List (List ℕ) → List (List ℕ) → List (ℤ × Msg)
session q id name before behind =
    (q, init_msg name) ∷ from_queue q (texts id before)
    ++ ((q, exit_msg id) ∷ from_queue q (texts id behind))

-- What the server answers to INIT.
abbrev pub id_reply : ℕ → Msg
id_reply n = record { type = receive_id; id = pos n; content = [] }
