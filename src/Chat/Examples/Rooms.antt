-- ===== src/Chat/Examples/Rooms.antt =====
-- Small states of the server.
use sysops.Common.{ℕ, zero, suc, ◌-◌, refl, false, List, [], ◌++◌, pos, length, replicate, arith}
use sysops.CMemory.{read_at, str_eq}
use sysops.Chat.Message.{Message, MessageType}
use sysops.Chat.State.{Client, Server}
use sysops.Chat.Registry.{occupy, reset, has_name}
use sysops.Chat.Registry.Reset.{AllNames, reset-IsTable}
use sysops.Chat.Registry.Table.{IsTable, occupy-IsTable}
use sysops.Chat.Server.{Env}
use sysops.Chat.Server.Safety.{IsReady}
use sysops.Chat.Text.{bytes}

abbrev pub env : Env
env = record {
  now = 1700000000;
  after_literal = replicate 512 7;
  after_text = [];
  stack = replicate 512 9;
}

abbrev pub blank : Client
blank = record {
  name = replicate 64 0;
  socket = pos 0;
  valid = false;
  awaiting_alive_response = false;
}

-- Before `init_clients`.
abbrev pub boot : Server
boot = record {
  clients = replicate 100 blank;
  locked = false;
  log = [];
  server_socket = pos 3;
  epoll_fd = pos 4;
}

AllNames-replicate : (n : ℕ) → AllNames (replicate n blank)
AllNames-replicate zero = tt
AllNames-replicate (suc n) = (refl, AllNames-replicate n)

pub boot_names : AllNames boot.clients
boot_names = AllNames-replicate 100

abbrev pub ala : List ℕ
ala = bytes "ala" ++ replicate 61 0

abbrev pub ola : List ℕ
ola = bytes "ola" ++ replicate 61 0

-- One client, then two.
abbrev pub table_one : List Client
table_one = occupy ala (pos 5) (reset boot.clients)

abbrev pub table_two : List Client
table_two = occupy ola (pos 6) table_one

abbrev pub room_of : List Client → Server
room_of cs = record boot { clients = cs }

pub table_one-IsTable : IsTable table_one
unfolding has_name reset
table_one-IsTable =
    occupy-IsTable (reset-IsTable boot.clients refl boot_names) ala (pos 5) (omega arith) tt refl

pub table_two-IsTable : IsTable table_two
unfolding has_name reset occupy read_at str_eq
table_two-IsTable = occupy-IsTable table_one-IsTable ola (pos 6) (omega arith) tt refl

pub one-IsReady : IsReady (room_of table_one)
one-IsReady = record { unlocked = refl; table = table_one-IsTable }

pub two-IsReady : IsReady (room_of table_two)
two-IsReady = record { unlocked = refl; table = table_two-IsTable }

-- A message of a kind, from a name.
abbrev pub say : List ℕ → MessageType → List ℕ → Message
say name kind text = record {
  sender = name;
  type = kind;
  text = text ++ replicate (512 - length text) 0;
  timestamp = 1700000000;
}
