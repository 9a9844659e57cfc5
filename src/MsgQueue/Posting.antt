-- ===== src/MsgQueue/Posting.antt =====
-- The texts of a session of cw07/client.c: what is sent, and what the server does with them.
use sysops.Common.{
  ℕ, zero, suc, ◌+◌, ◌≡◌, refl, ◌∙◌, ap, sym, Option, none, some, List, [], ◌∷◌, ◌++◌, map, ℤ, pos,
  append_assoc, arith,
}
use sysops.MsgQueue.{text, Msg, Call}
use sysops.MsgQueue.Room.{Room, without, copies, act_by}
use sysops.MsgQueue.Refine.Slots.{members, IdleFrom, members-idle}
use sysops.MsgQueue.Refine.Runs.{act_all, inits, AllOpened}
use sysops.MsgQueue.Client.{
  Input, too_long, leaves, says, Act, sends, closes, unlinks, kills_listener, read_input,
  handle_text_input,
}

-- A message with its priority.
abbrev pub Post : Type 0
Post = ℕ × Msg

-- The messages that are sent to the server, in their order.
abbrev pub posted : List Act → List Post
posted [] = []
posted (sends q priority m ∷ acts) = (priority, m) ∷ posted acts
posted (closes q ∷ acts) = posted acts
posted (unlinks name ∷ acts) = posted acts
posted (kills_listener ∷ acts) = posted acts

-- The texts that the user says before the session ends.
unfoldable pub said : List (Option (List ℕ)) → List (List ℕ)
unfolding read_input
said [] = []
said (none ∷ more) = said more
said (some buf ∷ more) = elim (read_input buf) [
  | too_long ↦ said more
  | leaves ↦ []
  | says line ↦ line ∷ said more
]

abbrev pub text_msg : ℤ → List ℕ → Msg
text_msg id line = record { type = text; id = id; content = line }

-- Each text to every member.
unfoldable pub told : ℤ → List (List ℕ) → List (ℕ × ℤ) → List Call
told id [] ms = []
told id (line ∷ more) ms = copies (text_msg id line) ms ++ told id more ms

-- Every message of a client comes with its queue.
abbrev pub from_queue : ℤ → List Msg → List (ℤ × Msg)
from_queue q ms = map (λ m. (q, m)) ms

unfoldable pub texts : ℤ → List (List ℕ) → List Msg
texts id lines = map (text_msg id) lines

-- The texts as they are sent.
unfoldable pub text_posts : ℤ → List (List ℕ) → List Post
text_posts id lines = map (λ line. (1, text_msg id line)) lines

pub posted-texts :
    (q id : ℤ) (rest : List Act) (lines : List (Option (List ℕ)))
    → posted (handle_text_input q id lines ++ rest) ≡ text_posts id (said lines) ++ posted rest
unfolding handle_text_input said text_posts
posted-texts q id rest [] = refl
posted-texts q id rest (none ∷ more) = posted-texts q id rest more
posted-texts q id rest (some buf ∷ more) = by_input (read_input buf) (posted-texts q id rest more)
  where
    by_input :
        (i : Input)
        → posted (handle_text_input q id more ++ rest) ≡ text_posts id (said more) ++ posted rest
        → posted (
            (elim i as (λ x. List Act) [
              | too_long ↦ handle_text_input q id more
              | leaves ↦ []
              | says line ↦ sends q 1 (text_msg id line) ∷ handle_text_input q id more
            ])
            ++ rest)
          ≡ map
              (λ line. (1, text_msg id line))
              (elim i as (λ x. List (List ℕ)) [
                | too_long ↦ said more
                | leaves ↦ []
                | says line ↦ line ∷ said more
              ])
            ++ posted rest
    by_input too_long ih = ih
    by_input leaves ih = refl
    by_input (says line) ih = ap (λ r. (1, text_msg id line) ∷ r) ih

pub act_all-texts :
    (q id : ℤ) (lines : List (List ℕ)) (rest : List (ℤ × Msg)) (r : Room)
    → act_all (from_queue q (texts id lines) ++ rest) r
      ≡ ((act_all rest r).0, told id lines r.members ++ (act_all rest r).1)
unfolding act_all act_by texts told
act_all-texts q id [] rest r = refl
act_all-texts q id (line ∷ more) rest r =
    ap (λ p. (p.0, copies (text_msg id line) r.members ++ p.1)) (act_all-texts q id more rest r)
    ∙ ap (λ c. ((act_all rest r).0, c))
        (sym (append_assoc (copies (text_msg id line) r.members) _ _))

pub without_new :
    (i n k : ℕ) (q : ℤ) (qs : List ℤ)
    → i + n ≡ k
    → IdleFrom n qs
    → without k (members i qs ++ ((k, q) ∷ [])) ≡ members i qs
unfolding without members
without_new i zero k q qs e d = rw (members-idle i qs d) (ground arith)
without_new i (suc n) k q [] e d = ground arith
without_new i (suc n) k q (p ∷ qs) e d =
    ground (arith, without_new (suc i) n k q qs (omega arith) d)

pub inits-texts :
    (q id : ℤ) (lines : List (List ℕ)) (rest : List (ℤ × Msg))
    → inits (from_queue q (texts id lines) ++ rest) ≡ inits rest
unfolding inits texts
inits-texts q id [] rest = refl
inits-texts q id (line ∷ more) rest = omega (arith, inits-texts q id more rest)

pub AllOpened-pos : (q : ℕ) (ms : List Msg) → AllOpened (from_queue (pos q) ms)
AllOpened-pos q [] = tt
AllOpened-pos q (m ∷ ms) = (tt, AllOpened-pos q ms)

pub map-append :
    (q : ℤ) (xs ys : List Msg) → from_queue q (xs ++ ys) ≡ from_queue q xs ++ from_queue q ys
map-append q [] ys = refl
map-append q (x ∷ xs) ys = ap (λ r. (q, x) ∷ r) (map-append q xs ys)
