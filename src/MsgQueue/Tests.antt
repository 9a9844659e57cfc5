-- ===== src/MsgQueue/Tests.antt =====
-- A run of the server of cw07, and the theorems at concrete inputs.
use sysops.Common.{
  ℕ, ◌≤◌, ◌≡◌, refl, List, [], ◌∷◌, ℤ, pos, minus_one, some, set, length-replicate, arith,
}
use sysops.MsgQueue.{
  init, receive_id, text, client_exit, Msg, send, close, Server, max_clients, broadcast,
  close_queue, handle_init_message, handle_text_message, handle_client_exit_message, dispatch_by,
  serve, start, close_all,
}
use sysops.MsgQueue.Refine.{Inv, room, Follows}
use sysops.MsgQueue.Refine.Slots.{IdleFrom-replicate}
use sysops.MsgQueue.Refine.Runs.{act_all, inits, serve-act_all}

abbrev joining : Msg
joining = record { type = init; id = pos 0; content = 47 ∷ [] }

abbrev hello : Msg
hello = record { type = text; id = pos 0; content = 104 ∷ [] }

abbrev leaving : Msg
leaving = record { type = client_exit; id = pos 0; content = [] }

abbrev given : ℕ → Msg
given n = record { type = receive_id; id = pos n; content = [] }

-- Two clients join, the first leaves, and a text comes.
abbrev messages : List (ℤ × Msg)
messages =
    (pos 5, joining)
    ∷ (pos 6, joining)
    ∷ (minus_one, joining)
    ∷ (pos 0, leaving)
    ∷ (pos 0, hello)
    ∷ []

run_messages :
    serve messages start
    ≡ some (record {
      curr_max_client_num = 2;
      client_queues = set start.client_queues 1 (pos 6);
      calls =
          send (pos 5) (given 0) ∷ send (pos 6) (given 1) ∷ close (pos 5) ∷ send (pos 6) hello ∷ [];
    })
unfolding serve dispatch_by handle_init_message handle_text_message handle_client_exit_message
    close_queue broadcast
run_messages = refl

run_close_all : close_all (minus_one ∷ pos 6 ∷ []) ≡ close (pos 6) ∷ []
unfolding close_all
run_close_all = refl

pub start-Inv : Inv start
start-Inv = record {
  size = length-replicate max_clients minus_one;
  few = omega arith;
  idle = IdleFrom-replicate max_clients;
}

serve-act_all_example :
    (t : Server) × (serve messages start ≡ some t) × Follows start (act_all messages (room start)) t
unfolding inits
serve-act_all_example =
    serve-act_all messages start start-Inv (tt, (tt, (refl, (tt, (tt, tt))))) few_inits
  where
    few_inits : 3 ≤ max_clients
    few_inits = omega arith

abbrev full : Server
full = record { curr_max_client_num = 50; client_queues = start.client_queues; calls = [] }
