-- ===== src/MsgQueue/ClientTests.antt =====
-- A session of the client of cw07, and its theorems at concrete inputs.
use sysops.Common.{
  ℕ, ◌≡◌, refl, true, false, none, some, Option, List, [], ◌∷◌, ◌++◌, pos, minus_one, arith,
}
use sysops.CMemory.{c_string, str_eq, read_at, bytes}
use sysops.MsgQueue.Serving
use sysops.MsgQueue.{dispatch_by, handle_init_message, close_all, close, text, client_exit, send}
use sysops.MsgQueue.Refine.{sends as sends_of}
use sysops.MsgQueue.Client.{
  Results, sends, closes, unlinks, kills_listener, says, read_input, listen_for_messages, received,
  init_msg, main, max_msg_buf_size,
}
use sysops.MsgQueue.Arrival.{
  sending, receiving, arrivals, receive_all, enqueue, enqueue_all, exit_msg,
}
use sysops.MsgQueue.Posting.{text_msg, posted}
use sysops.MsgQueue.Session.{id_reply}
use sysops.MsgQueue.Typing.{buffer, read_input-listen_for_messages}

abbrev results : Results
results = record {
  client_q = pos 3;
  server_q = pos 4;
  init_sent = true;
  id_msg = some (id_reply 0);
  forks = true;
}

abbrev lines : List (Option (List ℕ))
lines =
    some (buffer (bytes "hi") [])
    ∷ none
    ∷ some (buffer (bytes ":exit") [])
    ∷ some (buffer (bytes "no") [])
    ∷ []

abbrev hi : List ℕ
hi = bytes "hi" ++ (0 ∷ 0 ∷ [])

session_runs : main results (bytes "/q") lines ≡ (
  sends (pos 4) 1 (init_msg (bytes "/q"))
      ∷ sends (pos 4) 1 (record { type = text; id = pos 0; content = hi })
      ∷ kills_listener
      ∷ sends (pos 4) 2 (record { type = client_exit; id = pos 0; content = [] })
      ∷ closes (pos 4)
      ∷ closes (pos 3)
      ∷ unlinks (bytes "/q")
      ∷ [],
  true,
)
unfolding main read_input c_string str_eq read_at
session_runs = refl

-- Without a server nothing is left behind.
no_server :
    main (record results { server_q = minus_one }) (bytes "/q") lines
    ≡ (closes (pos 3) ∷ unlinks (bytes "/q") ∷ [], false)
unfolding main
no_server = refl

-- The exit overtakes a text that still waits, or comes behind it.
overtakes :
    arrivals (sending ∷ sending ∷ receiving ∷ []) (posted (main results (bytes "/q") lines).0)
    ≡ init_msg (bytes "/q") ∷ exit_msg (pos 0) ∷ text_msg (pos 0) hi ∷ []
unfolding arrivals receive_all enqueue enqueue_all main read_input c_string str_eq read_at
overtakes = refl

comes_last :
    arrivals (sending ∷ receiving ∷ []) (posted (main results (bytes "/q") lines).0)
    ≡ init_msg (bytes "/q") ∷ text_msg (pos 0) hi ∷ exit_msg (pos 0) ∷ []
unfolding arrivals receive_all enqueue enqueue_all main read_input c_string str_eq read_at
comes_last = refl

read_input-listen_for_messages_example :
    (line : List ℕ) × (read_input (buffer (bytes "hi") []) ≡ says line)
    × (listen_for_messages ((true, record { type = text; id = pos 2; content = line }) ∷ [])
        ≡ received (pos 2) line ∷ [])
    × (c_string max_msg_buf_size line ≡ bytes "hi")
read_input-listen_for_messages_example =
    read_input-listen_for_messages (pos 2) (bytes "hi") [] (omega arith) (omega arith) (λ e. cc)

-- A client joins, and then the server is interrupted, or cannot receive.
interrupted :
    Serving.main (pos 2) (Serving.message (pos 7) (init_msg (bytes "/q")) ∷ Serving.signalled ∷ [])
    ≡ Serving.ended true (send (pos 7) (id_reply 0) ∷ close (pos 7) ∷ [])
unfolding Serving.main dispatch_by handle_init_message close_all
interrupted = refl

cannot_receive :
    Serving.main
      (pos 2)
      (Serving.message (pos 7) (init_msg (bytes "/q")) ∷ Serving.receive_fails ∷ [])
    ≡ Serving.ended false (send (pos 7) (id_reply 0) ∷ close (pos 2) ∷ [])
unfolding Serving.main dispatch_by handle_init_message
cannot_receive = refl
