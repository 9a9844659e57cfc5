-- ===== src/Chat/State.antt =====
-- The state of cw11/server.c: the table of clients, the mutex over it, and what the server has done
-- on its descriptors. A handler is a computation on that state.
use sysops.Common.{ℕ, Bool, true, false, if◌then◌else◌, List, ◌++◌, ℤ}
use sysops.Chat.Message.{Message}

-- `client_t`
pub record Client : Type 0 where
  pub name : List ℕ
  pub socket : ℤ
  pub valid : Bool
  pub awaiting_alive_response : Bool

-- A system call of the server on a descriptor. Whether a `send` succeeds only changes what is
-- printed, so the attempt is what counts.
pub data Effect : Type 0 where
  sent : ℤ → Message → Effect
  closed : ℤ → Effect
  shut : ℤ → Effect
  watched : ℤ → Effect

-- The globals of cw11/server.c; `locked` says that `clients_mutex` is held.
pub record Server : Type 0 where
  pub clients : List Client
  pub locked : Bool
  pub log : List Effect
  pub server_socket : ℤ
  pub epoll_fd : ℤ

-- How a handler ends: it returns, it waits for the mutex and nobody will release it, or it does
-- what C leaves undefined (a null pointer, an access outside an array).
pub data Outcome (A : Type 0) : Type 0 where
  done : A → Server → Outcome A
  blocked : Outcome A
  fault : Outcome A

abbrev pub M : Type 0 → Type 0
M A = Server → Outcome A

abbrev pub bind : {A B : Type 0} → Outcome A → (A → M B) → Outcome B
bind (done a s) f = f a s
bind blocked f = blocked
bind fault f = fault

infixl 5 ◌>>=◌ ◌>>◌
abbrev pub ◌>>=◌ : {A B : Type 0} → M A → (A → M B) → M B
◌>>=◌ m f s = bind (m s) f

abbrev pub ◌>>◌ : {B : Type 0} → M (Unit {0}) → M B → M B
m >> k = m >>= λ _. k

abbrev pub return : {A : Type 0} → A → M A
return a s = done a s

abbrev pub undefined : {A : Type 0} → M A
undefined s = fault

-- `pthread_mutex_lock` on a mutex that its own thread left locked never returns.
abbrev pub lock : M (Unit {0})
lock s = if s.locked then blocked else done tt (record s { locked = true })

abbrev pub unlock : M (Unit {0})
unlock s = done tt (record s { locked = false })

abbrev pub table : M (List Client)
table s = done s.clients s

abbrev pub set_table : List Client → M (Unit {0})
set_table cs s = done tt (record s { clients = cs })

abbrev pub perform : List Effect → M (Unit {0})
perform effects s = done tt (record s { log = s.log ++ effects })
