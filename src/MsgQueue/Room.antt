-- ===== src/MsgQueue/Room.antt =====
-- What the server of cw07 is for: a room whose members get every text, in the order of their
-- numbers.
use sysops.Common.{ℕ, ◌+◌, if◌then◌else◌, ◌==◌, List, [], ◌∷◌, ◌++◌, ℤ, pos, negsuc}
use sysops.MsgQueue.{init, receive_id, text, client_exit, MsgType, Msg, Call, send, is_negative}

-- A member's number and queue; numbers are given out once.
pub record Room : Type 0 where
  pub next : ℕ
  pub members : List (ℕ × ℤ)

unfoldable pub without : ℕ → List (ℕ × ℤ) → List (ℕ × ℤ)
without i [] = []
without i ((j, q) ∷ ms) = if i == j then ms else (j, q) ∷ without i ms

-- One copy for each member.
unfoldable pub copies : Msg → List (ℕ × ℤ) → List Call
copies m [] = []
copies m ((j, q) ∷ ms) = send q m ∷ copies m ms

-- A message of the room, and the copies that are sent on it.
unfoldable pub enter : ℤ → Room → Room × List Call
enter q r = if is_negative q then (r, []) else (
  record { next = r.next + 1; members = r.members ++ ((r.next, q) ∷ []) },
  send q (record { type = receive_id; id = pos r.next; content = [] }) ∷ [],
)

abbrev pub leave : ℤ → Room → Room
leave (pos i) r = record r { members = without i r.members }
leave (negsuc n) r = r

unfoldable pub act_by : MsgType → ℤ → Msg → Room → Room × List Call
act_by init q m r = enter q r
act_by text q m r = (r, copies m r.members)
act_by client_exit q m r = (leave m.id r, [])
act_by _ q m r = (r, [])

abbrev pub act : ℤ → Msg → Room → Room × List Call
act q m r = act_by m.type q m r
