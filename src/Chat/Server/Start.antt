-- ===== src/Chat/Server/Start.antt =====
-- `main` of cw11/server.c: the set-up, and then the loop with the heartbeat.
use sysops.Common.{
  ℕ, ◌≡◌, refl, ◌∙◌, ap, Bool, true, false, if◌then◌else◌, Option, none, some, List, [], ◌∷◌, ◌++◌,
  length, ℤ, eq_ℤ, minus_one,
}
use sysops.Chat.Message.{max_clients}
use sysops.Chat.State.{Server, M, bind, ◌>>◌, done, watched, return, perform}
use sysops.Chat.Registry.{reset}
use sysops.Chat.Sockets.{SocketResults, init_ipv4_address, setup_server_socket}
use sysops.Chat.Server.{init_clients}
use sysops.Chat.Registry.Reset.{AllNames, reset-IsTable}
use sysops.Chat.Server.Safety.{IsReady}
use sysops.Chat.Server.Loop.{Turn, take_turns, AllServed, take_turns-IsReady}

-- What the calls of `main` give: on the socket, `epoll_create1`, and whether `epoll_ctl` and
-- `pthread_create` work.
pub record StartResults : Type 0 where
  pub sockets : SocketResults
  pub epoll : ℤ
  pub watches : Bool
  pub heartbeat : Bool

abbrev pub set_server_socket : ℤ → M (Unit {0})
set_server_socket fd s = done tt (record s { server_socket = fd })

abbrev pub set_epoll_fd : ℤ → M (Unit {0})
set_epoll_fd fd s = done tt (record s { epoll_fd = fd })

-- `main` behind `epoll_create1`. Its result says whether it came to its loop.
abbrev pub watch_socket : StartResults → List Turn → M Bool
watch_socket r turns =
    if r.watches
    then perform (watched r.sockets.socket ∷ [])
      >> (if r.heartbeat then take_turns turns >> return true else return false)
    else return false

abbrev pub open_epoll : StartResults → List Turn → M Bool
open_epoll r turns =
    init_clients
    >> (set_epoll_fd r.epoll
        >> (if eq_ℤ r.epoll minus_one then return false else watch_socket r turns))

-- `main` with an address and a port: the set-up, and what comes to the loop.
unfoldable pub main : (List ℕ → Option ℕ) → StartResults → Option (List ℕ × ℤ) → List Turn → M Bool
unfolding setup_server_socket init_clients take_turns
main inet_pton r none turns = return false
main inet_pton r (some (address, port)) turns =
    let fd = (setup_server_socket inet_pton r.sockets address port).1 in
    set_server_socket fd >> (if eq_ℤ fd minus_one then return false else open_epoll r turns)

-- All calls of the set-up work.
pub record StartWorks (inet_pton : List ℕ → Option ℕ) (r : StartResults) (address : List ℕ)
    : Type 0 where
  pub is_address : (a : ℕ) × (inet_pton address ≡ some a)
  pub socket : eq_ℤ r.sockets.socket minus_one ≡ false
  pub nonblocking : r.sockets.nonblocking ≡ true
  pub bound : r.sockets.bound ≡ true
  pub listening : r.sockets.listening ≡ true
  pub epoll : eq_ℤ r.epoll minus_one ≡ false
  pub watches : r.watches ≡ true
  pub heartbeat : r.heartbeat ≡ true

-- The server that comes to its loop, from what was in its globals.
abbrev pub started : StartResults → Server → Server
started r g = record {
  clients = reset g.clients;
  locked = false;
  log = g.log ++ (watched r.sockets.socket ∷ []);
  server_socket = r.sockets.socket;
  epoll_fd = r.epoll;
}

module _ (inet_pton : List ℕ → Option ℕ) (r : StartResults) (address : List ℕ) (port : ℤ)
    (w : StartWorks inet_pton r address) where
  setup_lem : (setup_server_socket inet_pton r.sockets address port).1 ≡ r.sockets.socket
  unfolding setup_server_socket init_ipv4_address
  setup_lem =
      let (a, e) = w.is_address in
      rw (setup_server_socket, init_ipv4_address, e)
        (rw (w.socket, w.nonblocking, w.bound, w.listening) refl)

  to_loop :
      (turns : List Turn) (g : Server)
      → g.locked ≡ false
      → main inet_pton r (some (address, port)) turns g
        ≡ bind (take_turns turns (started r g)) (λ _. return true)
  unfolding main init_clients
  to_loop turns g free =
      rw (setup_lem, w.socket, open_epoll, init_clients, free, w.epoll, w.watches, w.heartbeat) refl

-- When all calls of its set-up work, `main` makes its table of 100 entries ready, whatever was in
-- it, and comes to its loop, and the server is ready still after any turns of the loop and of the
-- heartbeat in which each message is, when it comes, one that `dispatch-served` names.
pub main-IsReady :
    (inet_pton : List ℕ → Option ℕ) (r : StartResults) (address : List ℕ) (port : ℤ)
    (turns : List Turn) (g : Server)
    → StartWorks inet_pton r address
    → g.locked ≡ false
    → length g.clients ≡ max_clients
    → AllNames g.clients
    → AllServed turns (started r g)
    → (t : Server) × (main inet_pton r (some (address, port)) turns g ≡ done true t) × IsReady t
main-IsReady inet_pton r address port turns g w free size names served =
    let ready : IsReady (started r g) = record {
      unlocked = refl;
      table = reset-IsTable g.clients size names;
    } in
    let (t, e, still) = take_turns-IsReady turns (started r g) ready served in
    (
      t,
      to_loop inet_pton r address port w turns g free ∙ ap (λ o. bind o (λ _. return true)) e,
      still,
    )
