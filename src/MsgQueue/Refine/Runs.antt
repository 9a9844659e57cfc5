-- ===== src/MsgQueue/Refine/Runs.antt =====
-- Whole runs of the server of cw07 against its room.
use sysops.Common.{
  ℕ, ◌+◌, ◌≤◌, ◌<◌, ◌≡◌, refl, ◌∙◌, ap, sym, if◌then◌else◌, List, [], ◌∷◌, ◌++◌, ℤ, pos, negsuc,
  none, some, append_assoc, append-nil, arith,
}
use sysops.MsgQueue.{
  MsgType, init, client_exit, Msg, Call, Server, max_clients, dispatch_message_type, serve,
}
use mathlib.Core.Path.{subst}
use sysops.MsgQueue.Room.{Room, enter, leave, act_by, act}
use sysops.MsgQueue.Refine.{
  Inv, room, sends, IsOpened, is_init, Follows, Answers, dispatch_message_type_refines,
}

-- The room over a whole run, and all that it sends.
unfoldable pub act_all : List (ℤ × Msg) → Room → Room × List Call
act_all [] r = (r, [])
act_all ((q, m) ∷ rest) r =
    let (r', sent) = act q m r in let (last, more) = act_all rest r' in (last, sent ++ more)

-- How many INIT messages come.
unfoldable pub inits : List (ℤ × Msg) → ℕ
inits [] = 0
inits ((q, m) ∷ rest) = (if is_init m.type then 1 else 0) + inits rest

abbrev pub AllOpened : List (ℤ × Msg) → Type 0
AllOpened [] = Unit {0}
AllOpened ((q, m) ∷ rest) = IsOpened q × AllOpened rest

next-leave : (k : ℤ) (r : Room) → (leave k r).next ≤ r.next + 0
next-leave (pos i) r = omega arith
next-leave (negsuc i) r = omega arith

next_by_type :
    (k : MsgType) (q : ℤ) (m : Msg) (r : Room)
    → (act_by k q m r).0.next ≤ r.next + (if is_init k then 1 else 0)
unfolding act_by enter
next_by_type init (pos q) m r = omega arith
next_by_type init (negsuc q) m r = omega arith
next_by_type client_exit q m r = next-leave m.id r
next_by_type _ q m r = omega arith

room_before : (n c k l : ℕ) → n + (c + k) ≤ l → c ≡ 1 → n < l
room_before n c k l h e = omega arith

bound_after : (n c k l t : ℕ) → n + (c + k) ≤ l → t ≤ n + c → t + k ≤ l
bound_after n c k l t h e = omega arith

one_more :
    (q : ℤ) (m : Msg) (rest : List (ℤ × Msg)) (s t u : Server)
    → dispatch_message_type q m s ≡ some t
    → Follows s (act q m (room s)) t
    → serve rest t ≡ some u
    → Follows t (act_all rest (room t)) u
    → Answers s (act_all ((q, m) ∷ rest) (room s)) (serve ((q, m) ∷ rest) s)
unfolding serve act_all
one_more q m rest s t u done f ran g = (
  u,
  ap (λ o. elim o [ none ↦ none | some v ↦ serve rest v ]) done ∙ ran,
  record {
    inv = g.inv;
    same_room = g.same_room ∙ ap (λ r. (act_all rest r).0) f.same_room;
    same_sends =
        g.same_sends
        ∙ ap (λ r. sends t.calls ++ (act_all rest r).1) f.same_room
        ∙ ap (λ c. c ++ (act_all rest (act q m (room s)).0).1) f.same_sends
        ∙ append_assoc (sends s.calls) _ _;
  },
)

-- From a server in its invariant, with `mq_open` giving a descriptor or -1: a run in which the
-- numbers given out before and the INIT messages are at most 50 together does not fail; behind it
-- the invariant holds, the server stands for the room that the messages make, and it has sent what
-- the room sends.
pub serve-act_all :
    (msgs : List (ℤ × Msg)) (s : Server)
    → Inv s
    → AllOpened msgs
    → s.curr_max_client_num + inits msgs ≤ max_clients
    → Answers s (act_all msgs (room s)) (serve msgs s)
unfolding serve act_all inits
serve-act_all [] s v o h =
    (s, refl, record { inv = v; same_room = refl; same_sends = sym (append-nil (sends s.calls)) })
serve-act_all ((q, m) ∷ rest) s v (o, os) h =
    let (t, done, f) =
      dispatch_message_type_refines q m s v o
        (λ e. room_before _ _ _ _ h (ap (λ b. if b then 1 else 0) e)) in
    let bound = bound_after _ _ _ _ _ h (
      subst (λ r. r.next ≤ s.curr_max_client_num + (if is_init m.type then 1 else 0))
        (sym f.same_room) (next_by_type m.type q m (room s))) in
    let (u, ran, g) = serve-act_all rest t f.inv os bound in one_more q m rest s t u done f ran g
