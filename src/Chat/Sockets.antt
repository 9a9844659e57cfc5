-- ===== src/Chat/Sockets.antt =====
-- cw11: addresses and sockets (init_ipv4_address and create_ipv4_socket of socket_utils.c), and
-- their use in setup_server_socket of server.c and connect_to_server of client.c.
use sysops.Common.{
  ℕ, ◌-◌, ◌/◌, ◌%◌, Bool, true, false, if◌then◌else◌, Option, none, some, List, [], ◌∷◌, ℤ, pos,
  negsuc, eq_ℤ, minus_one,
}

-- `struct sockaddr_in`: the two bytes of `sin_port` in memory, and `sin_addr`.
pub record SocketAddress : Type 0 where
  pub sin_port : List ℕ
  pub sin_addr : ℕ

-- An int as the uint16_t that `htons` takes.
abbrev pub low_16_bits : ℤ → ℕ
low_16_bits (pos n) = n % 65536
low_16_bits (negsuc n) = 65535 - n % 65536

-- The bytes that `htons` makes.
abbrev pub htons : ℤ → List ℕ
htons port = let p = low_16_bits port in p / 256 ∷ p % 256 ∷ []

-- A call on a socket that works.
pub data SocketCall : Type 0 where
  creates sets_nonblocking listens : ℤ → SocketCall
  binds connects : ℤ → SocketAddress → SocketCall

-- What the calls give: `socket`, and whether `fcntl`, `bind`, `listen` and `connect` work on it.
pub record SocketResults : Type 0 where
  pub socket : ℤ
  pub nonblocking : Bool
  pub bound : Bool
  pub listening : Bool
  pub connected : Bool

-- `inet_pton` stands as an argument; `none` is a text that it does not take.
module _ (inet_pton : List ℕ → Option ℕ) where
  -- A null pointer is INADDR_ANY; `none` is the result -1.
  unfoldable pub init_ipv4_address : Option (List ℕ) → ℤ → Option SocketAddress
  init_ipv4_address none port = some (record { sin_port = htons port; sin_addr = 0 })
  init_ipv4_address (some ipv4) port = elim (inet_pton ipv4) [
    | none ↦ none
    | some a ↦ some (record { sin_port = htons port; sin_addr = a })
  ]

  -- The calls that worked, and the result. No failure behind `socket` closes it.
  unfoldable pub setup_server_socket : SocketResults → List ℕ → ℤ → List SocketCall × ℤ
  unfolding init_ipv4_address
  setup_server_socket r address port = elim (init_ipv4_address (some address) port) [
    | none ↦ ([], minus_one)
    | some server_address ↦
        if eq_ℤ r.socket minus_one
        then ([], minus_one)
        else if r.nonblocking
        then (if r.bound
            then (if r.listening
                then (
                  creates r.socket
                      ∷ sets_nonblocking r.socket
                      ∷ binds r.socket server_address
                      ∷ listens r.socket
                      ∷ [],
                  r.socket,
                )
                else (
                  creates r.socket ∷ sets_nonblocking r.socket ∷ binds r.socket server_address ∷ [],
                  minus_one,
                ))
            else (creates r.socket ∷ sets_nonblocking r.socket ∷ [], minus_one))
        else (creates r.socket ∷ [], minus_one)
  ]

  -- The calls that worked, and whether the result is 0.
  unfoldable pub connect_to_server : SocketResults → List ℕ → ℤ → List SocketCall × Bool
  unfolding init_ipv4_address
  connect_to_server r server_ip server_port =
      elim (init_ipv4_address (some server_ip) server_port) [
        | none ↦ ([], false)
        | some server_address ↦
            if eq_ℤ r.socket minus_one
            then ([], false)
            else if r.connected
            then (creates r.socket ∷ connects r.socket server_address ∷ [], true)
            else (creates r.socket ∷ [], false)
      ]
