-- ===== src/Chat/Examples/Start.antt =====
-- The start of the chat server and of a client, at concrete inputs.
use sysops.Common.{ℕ, ◌≡◌, refl, true, false, Option, some, List, [], ◌∷◌, ◌++◌, pos, minus_one}
use sysops.CMemory.{c_string, str_eq}
use sysops.Chat.Message.{client_stop, server_ok_register}
use sysops.Chat.State.{Server, sent, closed, done}
use sysops.Chat.Text.{bytes, strtok, skip_spaces, start_token, split_token}
use sysops.Chat.Sockets.{
  SocketResults, creates, sets_nonblocking, binds, listens, connects, init_ipv4_address,
  setup_server_socket, connect_to_server,
}
use sysops.Chat.Server.Safety.{IsReady}
use sysops.Chat.Server.Loop.{on_check, on_drop}
use sysops.Chat.Server.Start
use sysops.Chat.Server.Start.{StartResults, main-IsReady}
use sysops.Chat.Client.{
  ClientEnv, stopped, from_client, no_text, new_client_request, cut_newline, choose, choose_token,
  read_command, handle_user_input, register_on_server,
}
use sysops.Chat.Client.Start as Client
use sysops.Chat.Examples.Rooms.{env, boot, boot_names, say, ola}

-- 127.0.0.1
abbrev address : List ℕ → Option ℕ
address text = some 16777343

abbrev home : List ℕ
home = bytes "127.0.0.1"

abbrev sockets : SocketResults
sockets = record {
  socket = pos 3;
  nonblocking = true;
  bound = true;
  listening = true;
  connected = true;
}

setup_runs : setup_server_socket address sockets home (pos 8080) ≡ (
  creates (pos 3)
      ∷ sets_nonblocking (pos 3)
      ∷ binds (pos 3) (record { sin_port = 31 ∷ 144 ∷ []; sin_addr = 16777343 })
      ∷ listens (pos 3)
      ∷ [],
  pos 3,
)
unfolding setup_server_socket init_ipv4_address
setup_runs = refl

-- A port that is taken: the socket stays open.
port_taken :
    setup_server_socket address (record sockets { bound = false }) home (pos 8080)
    ≡ (creates (pos 3) ∷ sets_nonblocking (pos 3) ∷ [], minus_one)
unfolding setup_server_socket init_ipv4_address
port_taken = refl

connect_runs : connect_to_server address sockets home (pos 8080) ≡ (
  creates (pos 3)
      ∷ connects (pos 3) (record { sin_port = 31 ∷ 144 ∷ []; sin_addr = 16777343 })
      ∷ [],
  true,
)
unfolding connect_to_server init_ipv4_address
connect_runs = refl

abbrev start_results : StartResults
start_results = record { sockets = sockets; epoll = pos 4; watches = true; heartbeat = true }

main-IsReady_example :
    (t : Server) × (Start.main address start_results
        (some (home, pos 8080))
        (on_check env ∷ on_drop ∷ [])
        boot
      ≡ done true t)
    × IsReady t
main-IsReady_example =
    main-IsReady address start_results home (pos 8080) (on_check env ∷ on_drop ∷ []) boot
      (record {
        is_address = (16777343, refl);
        socket = refl;
        nonblocking = refl;
        bound = refl;
        listening = refl;
        epoll = refl;
        watches = refl;
        heartbeat = refl;
      })
      refl refl boot_names (tt, λ a ra. (tt, λ b rb. tt))

abbrev client_env : ClientEnv
client_env = record { now = 7; client_id = bytes "ala" ++ (0 ∷ []); after_literal = [] }

client_runs :
    Client.main address client_env
      (record {
        sockets = sockets;
        request_sent = true;
        response = some (say ola server_ok_register []);
        listens = true;
      })
      (some (home, pos 8080))
      ((bytes "stop" ++ (10 ∷ 0 ∷ [])) ∷ [])
    ≡ (
      some stopped,
      sent (pos 3) (new_client_request client_env)
          ∷ sent (pos 3) (from_client client_env client_stop (no_text client_env))
          ∷ closed (pos 3)
          ∷ [],
    )
unfolding Client.main Client.register_and_talk connect_to_server init_ipv4_address handle_user_input
    read_command cut_newline choose_token choose strtok skip_spaces start_token split_token c_string
    str_eq register_on_server
client_runs = refl
