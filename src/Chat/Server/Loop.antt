-- ===== src/Chat/Server/Loop.antt =====
-- The loop of `main` in cw11/server.c over the events of epoll, with the heartbeat in between.
use sysops.Common.{
  ◌≡◌, refl, ◌∙◌, ap, Bool, true, ◌||◌, not, Bool-cases, inl, inr, if◌then◌else◌, Option, none,
  some, List, [], ◌∷◌, ◌++◌, ℤ, eq_ℤ,
}
use sysops.Chat.Message.{Message, IsMessage}
use sysops.Chat.State.{Server, watched, closed, done, M, bind, ◌>>◌, return, perform}
use sysops.Chat.Registry.Table.{IsFd, mark_awaiting-IsTable, drop_dead-IsTable}
use sysops.Chat.Server.{
  Env, handle_client_message, check_alive, drop_silent, check_if_clients_are_alive,
}
use sysops.Chat.Server.Safety.{served, IsReady, Returns, dispatch-served}

-- A connection that `accept` returns, and whether `fcntl` and `epoll_ctl` succeed on it.
pub record Incoming : Type 0 where
  pub socket : ℤ
  pub nonblocking : Bool
  pub added : Bool

-- The loop of `accept_new_connection_requests`, over the connections that wait.
unfoldable pub accept_new_connection_requests : List Incoming → M (Unit {0})
accept_new_connection_requests [] = return tt
accept_new_connection_requests (c ∷ rest) =
    if c.nonblocking
    then perform (watched c.socket ∷ [])
      >> (if c.added then accept_new_connection_requests rest else return tt)
    else return tt

-- An event of `epoll_wait`, with what the calls on its descriptor find.
pub record EpollEvent : Type 0 where
  pub fd : ℤ
  pub is_error : Bool
  pub is_hangup : Bool
  pub is_input : Bool
  pub incoming : List Incoming
  pub received : Option Message
  pub env : Env

-- The body of the inner loop of `main`.
unfoldable pub handle_event : EpollEvent → M (Unit {0})
unfolding accept_new_connection_requests handle_client_message
handle_event e s =
    if eq_ℤ e.fd s.server_socket
    then accept_new_connection_requests e.incoming s
    else if e.is_error || e.is_hangup || not e.is_input
    then perform (closed e.fd ∷ []) s
    else handle_client_message e.env e.received e.fd s

-- What runs next: an event, or one half of a round of the heartbeat thread.
pub data Turn : Type 0 where
  on_event : EpollEvent → Turn
  on_check : Env → Turn
  on_drop : Turn

unfoldable pub take_turn : Turn → M (Unit {0})
unfolding handle_event check_alive drop_silent
take_turn (on_event e) = handle_event e
take_turn (on_check env) = check_alive env
take_turn on_drop = drop_silent

unfoldable pub take_turns : List Turn → M (Unit {0})
unfolding take_turn
take_turns [] = return tt
take_turns (x ∷ xs) = take_turn x >> take_turns xs

-- A message that is received is well formed, comes on a descriptor, and is served.
abbrev pub IsServed : EpollEvent → Server → Option Message → Type 0
IsServed e s none = Unit {0}
IsServed e s (some m) = IsMessage m × IsFd e.fd × (served e.env m s.clients m.type ≡ true)

abbrev pub TurnServed : Turn → Server → Type 0
TurnServed (on_event e) s = IsServed e s e.received
TurnServed _ s = Unit {0}

-- Each turn is served in the state in which it comes.
abbrev pub AllServed : List Turn → Server → Type 0
AllServed [] s = Unit {0}
AllServed (x ∷ xs) s = TurnServed x s × ((t : Server) → take_turn x s ≡ done tt t → AllServed xs t)

accept-Returns :
    (cs : List Incoming) (s : Server) → IsReady s → Returns (accept_new_connection_requests cs s)
unfolding accept_new_connection_requests
accept-Returns [] s r = (s, refl, r)
accept-Returns (c ∷ rest) s r =
    let u : Server = record s { log = s.log ++ (watched c.socket ∷ []) } in
    let still : IsReady u = record { unlocked = r.unlocked; table = r.table } in
    elim (Bool-cases c.nonblocking) [
      | inr fails ↦ rw fails (s, refl, r)
      | inl works ↦ elim (Bool-cases c.added) [
        | inl more ↦ rw (works, more) (accept-Returns rest u still)
        | inr last ↦ rw (works, last) (u, refl, still)
      ]
    ]

message-Returns :
    (e : EpollEvent) (o : Option Message) (s : Server)
    → IsReady s
    → IsServed e s o
    → Returns (handle_client_message e.env o e.fd s)
unfolding handle_client_message
message-Returns e none s r v = (s, refl, r)
message-Returns e (some m) s r v = dispatch-served e.env m e.fd s r v.0 v.1 v.2

event-Returns :
    (e : EpollEvent) (s : Server) → IsReady s → IsServed e s e.received → Returns (handle_event e s)
unfolding handle_event
event-Returns e s r v = elim (Bool-cases (eq_ℤ e.fd s.server_socket)) [
  | inl own ↦ rw own (accept-Returns e.incoming s r)
  | inr other ↦ elim (Bool-cases (e.is_error || e.is_hangup || not e.is_input)) [
    | inl bad ↦
        rw (other, bad)
          (
            record s { log = s.log ++ (closed e.fd ∷ []) },
            refl,
            record { unlocked = r.unlocked; table = r.table },
          )
    | inr good ↦ rw (other, good) (message-Returns e e.received s r v)
  ]
]

turn-Returns : (x : Turn) (s : Server) → IsReady s → TurnServed x s → Returns (take_turn x s)
unfolding take_turn check_alive drop_silent
turn-Returns (on_event e) s r v = event-Returns e s r v
turn-Returns (on_check env) s r v =
    rw r.unlocked (_, refl, record { unlocked = refl; table = mark_awaiting-IsTable r.table })
turn-Returns on_drop s r v =
    rw r.unlocked (_, refl, record { unlocked = refl; table = drop_dead-IsTable r.table })

-- The server stays alive: through any events of epoll and rounds of the heartbeat in any order,
-- with new connections, broken ones and messages, a ready server comes back to its loop ready, if
-- each message is, when it comes, well formed, on a descriptor, and one that `dispatch-served`
-- names.
pub take_turns-IsReady :
    (xs : List Turn) (s : Server) → IsReady s → AllServed xs s → Returns (take_turns xs s)
unfolding take_turns
take_turns-IsReady [] s r v = (s, refl, r)
take_turns-IsReady (x ∷ xs) s r v =
    let (t, runs, ready) = turn-Returns x s r v.0 in
    let (u, on, last) = take_turns-IsReady xs t ready (v.1 t runs) in
    (u, ap (λ o. bind o (λ z. take_turns xs)) runs ∙ on, last)

-- Rounds of the heartbeat with nothing in between.
abbrev rounds : List Env → List Turn
rounds [] = []
rounds (env ∷ envs) = on_check env ∷ on_drop ∷ rounds envs

check_if_clients_are_alive-take_turns :
    (envs : List Env) (s : Server)
    → IsReady s
    → check_if_clients_are_alive envs s ≡ take_turns (rounds envs) s
unfolding check_if_clients_are_alive take_turns take_turn check_alive drop_silent
check_if_clients_are_alive-take_turns [] s r = refl
check_if_clients_are_alive-take_turns (env ∷ envs) s r = rw r.unlocked (
    check_if_clients_are_alive-take_turns envs _
      (record { unlocked = refl; table = drop_dead-IsTable (mark_awaiting-IsTable r.table) }))
