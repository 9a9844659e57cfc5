-- ===== src/MsgQueue/Arrival.antt =====
-- The order in which `mq_receive` of cw07/server.c gives the messages of a client: always the
-- oldest of the highest priority that waits in the queue.
use sysops.Common.{
  ℕ, ◌≡◌, refl, ◌∙◌, ap, sym, leb, if◌then◌else◌, List, [], ◌∷◌, ◌++◌, map, ℤ, append_assoc,
  append-nil,
}
use sysops.MsgQueue.{client_exit, Msg}
use sysops.MsgQueue.Posting.{Post, texts, text_msg, text_posts}

-- What happens next: the client sends, or the server receives.
pub data Next : Type 0 where
  sending receiving : Next

-- `mq_send`: behind all messages of at least that priority.
unfoldable pub enqueue : Post → List Post → List Post
enqueue m [] = m ∷ []
enqueue m (x ∷ queue) = if leb m.0 x.0 then x ∷ enqueue m queue else m ∷ x ∷ queue

unfoldable pub enqueue_all : List Post → List Post → List Post
enqueue_all [] queue = queue
enqueue_all (m ∷ posts) queue = enqueue_all posts (enqueue m queue)

-- What is received, when `posts` are still to be sent and `queue` waits. A turn in which there is
-- nothing to send or to receive passes; behind the last turn the rest is sent and then received. A
-- full queue, for which `mq_send` waits, only makes fewer turns possible.
unfoldable pub receive_all : List Next → List Post → List Post → List Msg
receive_all [] posts queue = map (λ m. m.1) (enqueue_all posts queue)
receive_all (sending ∷ turns) [] queue = receive_all turns [] queue
receive_all (sending ∷ turns) (m ∷ posts) queue = receive_all turns posts (enqueue m queue)
receive_all (receiving ∷ turns) posts [] = receive_all turns posts []
receive_all (receiving ∷ turns) posts (m ∷ queue) = m.1 ∷ receive_all turns posts queue

-- The messages of a session. The first is INIT, and the client sends nothing more before the server
-- has received and answered it.
unfoldable pub arrivals : List Next → List Post → List Msg
arrivals turns [] = []
arrivals turns (m ∷ posts) = m.1 ∷ receive_all turns posts []

abbrev pub exit_msg : ℤ → Msg
exit_msg id = record { type = client_exit; id = id; content = [] }

module _ (id : ℤ) where
  enqueue_text :
      (line : List ℕ) (ls : List (List ℕ))
      → enqueue (1, text_msg id line) (text_posts id ls) ≡ text_posts id (ls ++ (line ∷ []))
  unfolding enqueue text_posts
  enqueue_text line [] = refl
  enqueue_text line (l ∷ ls) = ap (λ r. (1, text_msg id l) ∷ r) (enqueue_text line ls)

  enqueue_exit :
      (ls : List (List ℕ))
      → enqueue (2, exit_msg id) (text_posts id ls) ≡ (2, exit_msg id) ∷ text_posts id ls
  unfolding enqueue text_posts
  enqueue_exit [] = refl
  enqueue_exit (l ∷ ls) = refl

  messages : (ls : List (List ℕ)) → map (λ m. m.1) (text_posts id ls) ≡ texts id ls
  unfolding text_posts texts
  messages [] = refl
  messages (l ∷ ls) = ap (λ r. text_msg id l ∷ r) (messages ls)

  texts_wait :
      (turns : List Next) (ls : List (List ℕ))
      → receive_all turns [] (text_posts id ls) ≡ texts id ls
  unfolding receive_all enqueue_all text_posts texts
  texts_wait [] ls = messages ls
  texts_wait (sending ∷ turns) ls = texts_wait turns ls
  texts_wait (receiving ∷ turns) [] = texts_wait turns []
  texts_wait (receiving ∷ turns) (l ∷ ls) = ap (λ r. text_msg id l ∷ r) (texts_wait turns ls)

  exit_waits :
      (turns : List Next) (ls : List (List ℕ))
      → receive_all turns [] ((2, exit_msg id) ∷ text_posts id ls) ≡ exit_msg id ∷ texts id ls
  unfolding receive_all enqueue_all
  exit_waits [] ls = ap (λ r. exit_msg id ∷ r) (messages ls)
  exit_waits (sending ∷ turns) ls = exit_waits turns ls
  exit_waits (receiving ∷ turns) ls = ap (λ r. exit_msg id ∷ r) (texts_wait turns ls)

  -- The texts arrive in their order, and the exit somewhere between them.
  abbrev pub Between : List (List ℕ) → List Msg → Type 0
  Between lines ms =
      (before : List (List ℕ)) × (after : List (List ℕ)) × (lines ≡ before ++ after)
      × (ms ≡ texts id before ++ (exit_msg id ∷ texts id after))

  exit_last :
      (lines ls : List (List ℕ))
      → enqueue_all (text_posts id lines ++ ((2, exit_msg id) ∷ [])) (text_posts id ls)
        ≡ (2, exit_msg id) ∷ text_posts id (ls ++ lines)
  unfolding enqueue_all text_posts
  exit_last [] ls =
      enqueue_exit ls ∙ ap (λ r. (2, exit_msg id) ∷ text_posts id r) (sym (append-nil ls))
  exit_last (line ∷ lines) ls =
      ap (enqueue_all (text_posts id lines ++ ((2, exit_msg id) ∷ []))) (enqueue_text line ls)
      ∙ exit_last lines (ls ++ (line ∷ []))
      ∙ ap (λ r. (2, exit_msg id) ∷ text_posts id r) (append_assoc ls (line ∷ []) lines)

  pub receive_all-Between :
      (turns : List Next) (lines ls : List (List ℕ))
      → Between
          (ls ++ lines)
          (receive_all turns (text_posts id lines ++ ((2, exit_msg id) ∷ [])) (text_posts id ls))
  unfolding receive_all text_posts texts
  receive_all-Between [] lines ls = (
    [],
    ls ++ lines,
    refl,
    ap (map (λ m. m.1)) (exit_last lines ls) ∙ ap (λ r. exit_msg id ∷ r) (messages (ls ++ lines)),
  )
  receive_all-Between (sending ∷ turns) [] ls =
      ([], ls, append-nil ls, ap (receive_all turns []) (enqueue_exit ls) ∙ exit_waits turns ls)
  receive_all-Between (sending ∷ turns) (line ∷ lines) ls =
      let (before, after, all, ms) = receive_all-Between turns lines (ls ++ (line ∷ [])) in
      (
        before,
        after,
        sym (append_assoc ls (line ∷ []) lines) ∙ all,
        ap (receive_all turns (text_posts id lines ++ ((2, exit_msg id) ∷ [])))
              (enqueue_text line ls)
            ∙ ms,
      )
  receive_all-Between (receiving ∷ turns) lines [] = receive_all-Between turns lines []
  receive_all-Between (receiving ∷ turns) lines (l ∷ ls) =
      let (before, after, all, ms) = receive_all-Between turns lines ls in
      (l ∷ before, after, ap (λ r. l ∷ r) all, ap (λ r. text_msg id l ∷ r) ms)
