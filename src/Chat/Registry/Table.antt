-- ===== src/Chat/Registry/Table.antt =====
-- The invariant of the table of clients, kept by each loop of cw11/server.c: its size, names that
-- fill their array, distinct names and open sockets of the valid clients.
use sysops.Common.{
  ℕ, ◌≤◌, ◌≡◌, refl, Bool, true, false, not, if◌then◌else◌, List, [], ◌∷◌, ℤ, pos, negsuc, eq_ℤ,
  length, arith, ap, ◌∙◌, map, length-map,
}
use sysops.CMemory.{read_at}
use sysops.CMemory.Copy.{length-read_at}
use sysops.Chat.Message.{max_client_name, max_clients}
use sysops.Chat.State.{Client}
use sysops.Chat.Registry.{
  has_name, is_named, occupy, vacate, answer, mark_awaiting, drop_dead, mark_one, drop_one,
}
use mathlib.Core.Path.{subst}
use mathlib.Core.Option.{some}
use sysops.Chat.Registry.Names.{lookup, IsDistinct, occupy-IsDistinct, vacate-IsDistinct}

abbrev pub IsFd : ℤ → Type 0
IsFd (pos n) = Unit {0}
IsFd (negsuc n) = ⊥

pub record IsClient (c : Client) : Type 0 where
  pub name_size : length c.name ≡ max_client_name
  pub is_open : c.valid ≡ true → IsFd c.socket

abbrev pub AllClients : List Client → Type 0
AllClients [] = Unit {0}
AllClients (c ∷ cs) = IsClient c × AllClients cs

pub record IsTable (cs : List Client) : Type 0 where
  pub size : length cs ≡ max_clients
  pub distinct : IsDistinct cs
  pub clients : AllClients cs

-- `P` of a table whose first entry is `c`, by cases on a test.
module _ (P : List Client → Type 0) (yes_table no_table : List Client) where
  if_table : (b : Bool) → P yes_table → P no_table → P (if b then yes_table else no_table)
  if_table true p q = p
  if_table false p q = q

clear_name : {c : Client} → IsClient c → length (0 ∷ read_at c.name 1 63) ≡ max_client_name
clear_name {c} v = omega (arith, v.name_size, length-read_at c.name 1 63)

-- `add_client`'s second loop
module _ (name : List ℕ) (socket : ℤ) where
  length-occupy : (cs : List Client) → length (occupy name socket cs) ≡ length cs
  unfolding occupy
  length-occupy [] = refl
  length-occupy (c ∷ cs) = ground (arith, length-occupy cs)

  AllClients-occupy :
      (cs : List Client)
      → max_client_name ≤ length name
      → IsFd socket
      → AllClients cs
      → AllClients (occupy name socket cs)
  unfolding occupy
  AllClients-occupy [] h f a = tt
  AllClients-occupy (c ∷ cs) h f a =
      if_table AllClients _ _ (not c.valid)
        (record { name_size = length-read_at name 0 64 h; is_open = λ _. f }, a.1)
        (a.0, AllClients-occupy cs h f a.1)

-- `handle_client_delete`'s loop
module _ (name : List ℕ) where
  length-vacate : (cs : List Client) → length (vacate name cs) ≡ length cs
  unfolding vacate
  length-vacate [] = refl
  length-vacate (c ∷ cs) = ground (arith, length-vacate cs)

  AllClients-vacate : (cs : List Client) → AllClients cs → AllClients (vacate name cs)
  unfolding vacate
  AllClients-vacate [] a = tt
  AllClients-vacate (c ∷ cs) a =
      if_table AllClients _ _ (is_named name c)
        (record { name_size = clear_name a.0; is_open = λ v. cc }, a.1)
        (a.0, AllClients-vacate cs a.1)

-- `handle_got_alive_message`'s loop
module _ (fd : ℤ) where
  length-answer : (cs : List Client) → length (answer fd cs) ≡ length cs
  unfolding answer
  length-answer [] = refl
  length-answer (c ∷ cs) = ground (arith, length-answer cs)

  has_name-answer : (n : List ℕ) (cs : List Client) → has_name n (answer fd cs) ≡ has_name n cs
  unfolding answer has_name
  has_name-answer n [] = refl
  has_name-answer n (c ∷ cs) = ground (arith, has_name-answer n cs)

  pub answer-IsDistinct : (cs : List Client) → IsDistinct cs → IsDistinct (answer fd cs)
  unfolding answer
  answer-IsDistinct [] d = tt
  answer-IsDistinct (c ∷ cs) d =
      if_table IsDistinct _ _ (eq_ℤ c.socket fd) d
        (λ v. has_name-answer c.name cs ∙ d.0 v, answer-IsDistinct cs d.1)

  AllClients-answer : (cs : List Client) → AllClients cs → AllClients (answer fd cs)
  unfolding answer
  AllClients-answer [] a = tt
  AllClients-answer (c ∷ cs) a =
      if_table AllClients _ _ (eq_ℤ c.socket fd)
        (record { name_size = a.0.name_size; is_open = a.0.is_open }, a.1)
        (a.0, AllClients-answer cs a.1)

-- A loop that maps every entry by a function which keeps names and sockets, and makes nobody valid.
module _ (f : Client → Client) (same_name : (c : Client) → (f c).name ≡ c.name)
    (less_valid : (c : Client) → (f c).valid ≡ true → c.valid ≡ true)
    (same_socket : (c : Client) → (f c).socket ≡ c.socket) where
  has_name-map :
      (n : List ℕ) (cs : List Client) → has_name n cs ≡ false → has_name n (map f cs) ≡ false
  unfolding has_name
  has_name-map n [] h = refl
  has_name-map n (c ∷ cs) h = ground (arith, has_name-map n cs, same_name c, less_valid c)

  IsDistinct-map : (cs : List Client) → IsDistinct cs → IsDistinct (map f cs)
  IsDistinct-map [] d = tt
  IsDistinct-map (c ∷ cs) d =
      (λ v. rw (same_name c) (has_name-map c.name cs (d.0 (less_valid c v))), IsDistinct-map cs d.1)

  AllClients-map : (cs : List Client) → AllClients cs → AllClients (map f cs)
  AllClients-map [] a = tt
  AllClients-map (c ∷ cs) a = (
    record {
      name_size = ap length (same_name c) ∙ a.0.name_size;
      is_open = λ v. rw (same_socket c) (a.0.is_open (less_valid c v));
    },
    AllClients-map cs a.1,
  )

  map-IsTable : {cs : List Client} → IsTable cs → IsTable (map f cs)
  map-IsTable {cs} v = record {
    size = length-map cs f ∙ v.size;
    distinct = IsDistinct-map cs v.distinct;
    clients = AllClients-map cs v.clients;
  }

module _ {cs : List Client} (v : IsTable cs) where
  -- Registering a new name keeps the table well formed.
  pub occupy-IsTable :
      (name : List ℕ) (socket : ℤ)
      → max_client_name ≤ length name
      → IsFd socket
      → has_name name cs ≡ false
      → IsTable (occupy name socket cs)
  occupy-IsTable name socket h f new = record {
    size = length-occupy name socket cs ∙ v.size;
    distinct = occupy-IsDistinct name socket cs new v.distinct;
    clients = AllClients-occupy name socket cs h f v.clients;
  }

  pub vacate-IsTable : (name : List ℕ) → IsTable (vacate name cs)
  vacate-IsTable name = record {
    size = length-vacate name cs ∙ v.size;
    distinct = vacate-IsDistinct name cs v.distinct;
    clients = AllClients-vacate name cs v.clients;
  }

  pub answer-IsTable : (fd : ℤ) → IsTable (answer fd cs)
  answer-IsTable fd = record {
    size = length-answer fd cs ∙ v.size;
    distinct = answer-IsDistinct fd cs v.distinct;
    clients = AllClients-answer fd cs v.clients;
  }

  pub mark_awaiting-IsTable : IsTable (mark_awaiting cs)
  unfolding mark_awaiting
  mark_awaiting-IsTable =
      map-IsTable mark_one (λ c. ground arith) (λ c. ground arith) (λ c. ground arith) v

  pub drop_dead-IsTable : IsTable (drop_dead cs)
  unfolding drop_dead
  drop_dead-IsTable =
      map-IsTable drop_one (λ c. ground arith) (λ c. ground arith) (λ c. ground arith) v

-- A registered name leads to an open socket.
pub lookup-IsFd :
    (n : List ℕ) (cs : List Client) {fd : ℤ} → AllClients cs → lookup n cs ≡ some fd → IsFd fd
unfolding lookup
lookup-IsFd n [] a h = cc
lookup-IsFd n (c ∷ cs) {fd} a h = by_name (is_named n c) refl h (lookup-IsFd n cs a.1)
  where
    by_name :
        (b : Bool)
        → is_named n c ≡ b
        → (if b then some c.socket else lookup n cs) ≡ some fd
        → (lookup n cs ≡ some fd → IsFd fd)
        → IsFd fd
    by_name true e h ih =
        let same : c.socket ≡ fd = cc in subst IsFd same (a.0.is_open (ground arith))
    by_name false e h ih = ih h
