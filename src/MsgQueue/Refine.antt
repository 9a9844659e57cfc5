-- ===== src/MsgQueue/Refine.antt =====
-- The server of cw07 refines its room: the array of queues against the list of members.
pub mod Slots
pub mod Runs
use sysops.Common.{
  ℕ, zero, suc, ◌+◌, ◌≤◌, ◌<◌, ◌≡◌, refl, ◌∙◌, ap, sym, Bool, true, false, if◌then◌else◌, ltb, List,
  [], ◌∷◌, ◌++◌, ℤ, pos, negsuc, minus_one, eq_ℤ, Option, none, some, set, length, length-set,
  append_assoc, append-nil, arith, Bool-cases, replicate, length-replicate, ◌⊎◌, inl, inr,
}
use sysops.MsgQueue.{
  MsgType, init, receive_id, text, client_exit, unknown, Msg, Call, send, close, Server,
  max_clients, queue_at, is_negative, broadcast, close_queue, handle_init_message,
  handle_text_message, handle_client_exit_message, dispatch_by, dispatch_message_type, serve, start,
}
use mathlib.Core.Path.{subst}
use sysops.MsgQueue.Room.{Room, without, copies, enter, leave, act_by, act}
use Slots.{
  members, IdleFrom, members-set, members-set_minus, IdleFrom-set, IdleFrom-set_minus,
  broadcast-copies, set-idle, set_outside, members-replicate, IdleFrom-replicate,
}

-- The sends among the calls.
abbrev pub sends : List Call → List Call
sends [] = []
sends (send q m ∷ cs) = send q m ∷ sends cs
sends (close q ∷ cs) = sends cs

pub record Inv (s : Server) : Type 0 where
  pub size : length s.client_queues ≡ max_clients
  pub few : s.curr_max_client_num ≤ max_clients
  pub idle : IdleFrom s.curr_max_client_num s.client_queues

-- The room that a server stands for.
abbrev pub room : Server → Room
room s = record { next = s.curr_max_client_num; members = members 0 s.client_queues }

-- `mq_open` returns a descriptor or -1.
abbrev pub IsOpened : ℤ → Type 0
IsOpened (pos n) = Unit {0}
IsOpened (negsuc n) = n ≡ 0

abbrev pub is_init : MsgType → Bool
is_init init = true
is_init _ = false

-- After a message the server stands for what the room became, and it has sent what the room sends.
pub record Follows (s : Server) (r : Room × List Call) (t : Server) : Type 0 where
  pub inv : Inv t
  pub same_room : room t ≡ r.0
  pub same_sends : sends t.calls ≡ sends s.calls ++ r.1

sends-append : (xs ys : List Call) → sends (xs ++ ys) ≡ sends xs ++ sends ys
sends-append [] ys = refl
sends-append (send q m ∷ xs) ys = ap (λ r. send q m ∷ r) (sends-append xs ys)
sends-append (close q ∷ xs) ys = sends-append xs ys

sends-broadcast : (m : Msg) (n : ℕ) (qs : List ℤ) → sends (broadcast m n qs) ≡ broadcast m n qs
unfolding broadcast
sends-broadcast m zero qs = refl
sends-broadcast m (suc n) [] = refl
sends-broadcast m (suc n) (q ∷ qs) = ground (arith, sends-broadcast m n qs)

abbrev pub Answers : Server → Room × List Call → Option Server → Type 0
Answers s r o = (t : Server) × (o ≡ some t) × Follows s r t

module _ (s : Server) (v : Inv s) where
  qs : List ℤ
  qs = s.client_queues

  n : ℕ
  n = s.curr_max_client_num

  unchanged : {o : Option Server} → o ≡ some s → Answers s (room s, []) o
  unchanged e =
      (s, e, record { inv = v; same_room = refl; same_sends = sym (append-nil (sends s.calls)) })

  entered :
      (q : ℕ) → n < max_clients → Answers s (enter (pos q) (room s)) (handle_init_message (pos q) s)
  unfolding qs n handle_init_message enter
  entered q h = (
    record {
      curr_max_client_num = n + 1;
      client_queues = set qs n (pos q);
      calls =
          s.calls ++ (send (pos q) (record { type = receive_id; id = pos n; content = [] }) ∷ []);
    },
    ground arith,
    record {
      inv = record {
        size = length-set qs n (pos q) ∙ v.size;
        few = omega arith;
        idle =
            subst (λ k. IdleFrom k (set qs n (pos q))) one_more
              (IdleFrom-set n (pos q) qs (omega (arith, v.size)) v.idle);
      };
      same_room = λ i. record {
        next = n + 1;
        members = members-set 0 n n (pos q) qs (omega arith) (omega (arith, v.size)) v.idle refl i;
      };
      same_sends = sends-append s.calls _;
    },
  )
    where
      one_more : suc n ≡ n + 1
      one_more = omega arith

  not_entered :
      (k : ℕ)
      → k ≡ 0
      → n < max_clients
      → Answers s (enter (negsuc k) (room s)) (handle_init_message (negsuc k) s)
  unfolding qs n handle_init_message enter
  not_entered k e h = unchanged (rw (e, set-idle n qs v.idle) (ground arith))

  told : (m : Msg) → Answers s (room s, copies m (members 0 qs)) (handle_text_message m s)
  unfolding qs n handle_text_message
  told m = (
    record s { calls = s.calls ++ broadcast m n qs },
    refl,
    record {
      inv = record { size = v.size; few = v.few; idle = v.idle };
      same_room = refl;
      same_sends =
          sends-append s.calls (broadcast m n qs)
          ∙ ap (λ r. sends s.calls ++ r)
              (sends-broadcast m n qs ∙ broadcast-copies m 0 n qs v.idle);
    },
  )

  closed : ℕ → Server
  closed i = record s {
    client_queues = set qs i minus_one;
    calls = s.calls ++ (close (queue_at qs i) ∷ []);
  }

  closed-Follows : (i : ℕ) → Follows s (leave (pos i) (room s), []) (closed i)
  unfolding qs n closed
  closed-Follows i = record {
    inv = record {
      size = length-set qs i minus_one ∙ v.size;
      few = v.few;
      idle = IdleFrom-set_minus n i qs v.idle;
    };
    same_room = λ t. record { next = n; members = members-set_minus 0 i i qs (omega arith) t };
    same_sends = sends-append s.calls _;
  }

  absent-Follows : (i : ℕ) → max_clients ≤ i → Follows s (leave (pos i) (room s), []) s
  unfolding qs n
  absent-Follows i h = record {
    inv = v;
    same_room = λ t. record { next = n; members = same_members t };
    same_sends = sym (append-nil (sends s.calls));
  }
    where
      same_members : members 0 qs ≡ without i (members 0 qs)
      same_members =
          sym (ap (members 0) (set_outside i qs minus_one (omega (arith, v.size))))
          ∙ members-set_minus 0 i i qs (omega arith)

  left : (i : ℕ) → Answers s (leave (pos i) (room s), []) (some (close_queue i s))
  unfolding qs n close_queue closed
  left i = elim (Bool-cases (ltb i max_clients)) [
    | inl inside ↦ (closed i, rw inside, closed-Follows i)
    | inr outside ↦ (s, rw outside, absent-Follows i (ground arith))
  ]

  by_id :
      (m : Msg) (k : ℤ)
      → m.id ≡ k
      → Answers s (leave k (room s), []) (handle_client_exit_message m s)
  unfolding handle_client_exit_message
  by_id m (pos i) e = rw e (left i)
  by_id m (negsuc k) e = unchanged (rw e)

  by_type :
      (q : ℤ) (m : Msg) (k : MsgType)
      → IsOpened q
      → (is_init k ≡ true → n < max_clients)
      → Answers s (act_by k q m (room s)) (dispatch_by k q m s)
  unfolding qs n act_by dispatch_by
  by_type (pos q) m init o h = entered q (h refl)
  by_type (negsuc k) m init o h = not_entered k o (h refl)
  by_type q m text o h = told m
  by_type q m client_exit o h = by_id m m.id refl
  by_type q m k o h = unchanged refl

-- Every message to a server in its invariant, with `mq_open` giving a descriptor or -1, and unless
-- it is an INIT after 50 numbers have been given out: it does not fail, keeps the invariant, and
-- does to the room of members and to the sends what the room specifies: a new member with the next
-- number and its id sent to it, a copy of a text to every member in the order of numbers, the
-- member of a number taken out, or nothing.
pub dispatch_message_type_refines :
    (q : ℤ) (m : Msg) (s : Server)
    → Inv s
    → IsOpened q
    → (is_init m.type ≡ true → s.curr_max_client_num < max_clients)
    → (t : Server) × (dispatch_message_type q m s ≡ some t) × Follows s (act q m (room s)) t
unfolding n
dispatch_message_type_refines q m s v o h = by_type s v q m m.type o h

-- Once 50 numbers have been given out, the next INIT writes past the end of the array, also if
-- every client has left.
handle_init_message_overflow :
    (q : ℤ) (m : Msg) (s : Server)
    → m.type ≡ init
    → s.curr_max_client_num ≡ max_clients
    → dispatch_message_type q m s ≡ none
unfolding dispatch_by handle_init_message
handle_init_message_overflow q m s e full = ap (λ k. dispatch_by k q m s) e ∙ simp full refl
