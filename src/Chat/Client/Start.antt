-- ===== src/Chat/Client/Start.antt =====
-- `main` of cw11/client.c in its own thread: the set-up, and then the commands of the user.
use sysops.Common.{ℕ, Bool, if◌then◌else◌, leb, Option, none, some, List, [], ◌∷◌, ◌++◌, length, ℤ}
use sysops.CMemory.{c_string}
use sysops.Chat.Message.{Message, max_client_name}
use sysops.Chat.State.{Effect, sent, closed}
use sysops.Chat.Sockets.{SocketResults, connect_to_server}
use sysops.Chat.Client.{
  ClientEnv, Ending, waiting, stopped, crashed, new_client_request, register_on_server,
  handle_user_input,
}

-- What the calls of `main` give: on the socket, on the registration, and whether `pthread_create`
-- works.
pub record ClientResults : Type 0 where
  pub sockets : SocketResults
  pub request_sent : Bool
  pub response : Option Message
  pub listens : Bool

-- Behind `handle_user_input`: `main` closes the socket once that has returned.
abbrev pub close_at_end : ℤ → Ending × List Effect → Option Ending × List Effect
close_at_end fd (stopped, acts) = (some stopped, acts ++ (closed fd ∷ []))
close_at_end fd (waiting, acts) = (some waiting, acts)
close_at_end fd (crashed, acts) = (some crashed, acts)

-- Behind `connect_to_server`, on the socket. `none` says that `main` returned EXIT_FAILURE.
unfoldable pub register_and_talk :
    ClientEnv → ClientResults → List (List ℕ) → Option Ending × List Effect
unfolding register_on_server handle_user_input
register_and_talk env r lines =
    let fd = r.sockets.socket in
    let (ending, acts) =
      (if register_on_server r.request_sent r.response
        then (if r.listens then close_at_end fd (handle_user_input env fd lines) else (none, []))
        else (none, [])) in
    (ending, sent fd (new_client_request env) ∷ acts)

-- `main` with a server and its port (`none`: fewer arguments); the name of the client stands in
-- `env`.
unfoldable pub main :
    (List ℕ → Option ℕ)
    → ClientEnv
    → ClientResults
    → Option (List ℕ × ℤ)
    → List (List ℕ)
    → Option Ending × List Effect
unfolding connect_to_server register_and_talk
main inet_pton env r none lines = (none, [])
main inet_pton env r (some (server_ip, server_port)) lines =
    if leb max_client_name (length (c_string max_client_name env.client_id))
    then (none, [])
    else if (connect_to_server inet_pton r.sockets server_ip server_port).1
    then register_and_talk env r lines
    else (none, [])
