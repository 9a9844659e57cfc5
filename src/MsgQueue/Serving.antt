-- ===== src/MsgQueue/Serving.antt =====
-- `main` of cw07/server.c around its loop, and its handler of SIGINT and SIGTERM.
use sysops.Common.{Bool, true, false, if◌then◌else◌, none, some, List, [], ◌∷◌, ◌++◌, ℤ}
use sysops.MsgQueue.{Msg, Call, close, Server, is_negative, dispatch_message_type, start, close_all}

-- What comes to the loop: a message, with what `mq_open` returns for it, a failing `mq_receive`,
-- or a signal.
pub data Incoming : Type 0 where
  message : ℤ → Msg → Incoming
  receive_fails signalled : Incoming

-- How the process stands: it waits for more, it has written past its array, or it has ended, with
-- whether it succeeded and its calls on queues by then.
pub data Standing : Type 0 where
  waiting : Server → Standing
  overflowed : Standing
  ended : Bool → List Call → Standing

-- `sig_handler`
unfoldable pub sig_handler : Server → Standing
unfolding close_all
sig_handler s = ended true (s.calls ++ close_all s.client_queues)

-- The loop of `main`, with the server's own queue.
unfoldable pub serve_queue : ℤ → List Incoming → Server → Standing
unfolding sig_handler
serve_queue queue [] s = waiting s
serve_queue queue (message opened m ∷ more) s = elim (dispatch_message_type opened m s) [
  | none ↦ overflowed
  | some t ↦ serve_queue queue more t
]
serve_queue queue (receive_fails ∷ more) s = ended false (s.calls ++ (close queue ∷ []))
serve_queue queue (signalled ∷ more) s = sig_handler s

-- `main`, with what `mq_open` returns for its own queue. Behind its loop both ways to end unlink
-- that.
unfoldable pub main : ℤ → List Incoming → Standing
unfolding serve_queue
main queue more = if is_negative queue then ended false [] else serve_queue queue more start
