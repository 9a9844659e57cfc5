-- ===== src/Chat/Registry/Reset.antt =====
-- The table of cw11/server.c behind `init_clients`.
use sysops.Common.{ℕ, ◌≡◌, refl, false, List, [], ◌∷◌, length, arith, ◌∙◌, length-map}
use sysops.CMemory.Copy.{length-read_at}
use sysops.Chat.Message.{max_client_name, max_clients}
use sysops.Chat.State.{Client}
use sysops.Chat.Registry.{has_name, reset, reset_one}
use sysops.Chat.Registry.Names.{IsDistinct}
use sysops.Chat.Registry.Table.{AllClients, IsTable}

-- A table whose entries have arrays for names; nothing else is asked before `init_clients`.
abbrev pub AllNames : List Client → Type 0
AllNames [] = Unit {0}
AllNames (c ∷ cs) = (length c.name ≡ max_client_name) × AllNames cs

has_name-reset : (n : List ℕ) (cs : List Client) → has_name n (reset cs) ≡ false
unfolding reset has_name
has_name-reset n [] = refl
has_name-reset n (c ∷ cs) = ground (arith, has_name-reset n cs)

reset-IsDistinct : (cs : List Client) → IsDistinct (reset cs)
unfolding reset
reset-IsDistinct [] = tt
reset-IsDistinct (c ∷ cs) = (λ v. cc, reset-IsDistinct cs)

AllClients-reset : (cs : List Client) → AllNames cs → AllClients (reset cs)
unfolding reset
AllClients-reset [] a = tt
AllClients-reset (c ∷ cs) a = (
  record { name_size = omega (arith, a.0, length-read_at c.name 1 63); is_open = λ v. cc },
  AllClients-reset cs a.1,
)

pub reset-IsTable : (cs : List Client) → length cs ≡ max_clients → AllNames cs → IsTable (reset cs)
unfolding reset
reset-IsTable cs h a = record {
  size = length-map cs reset_one ∙ h;
  distinct = reset-IsDistinct cs;
  clients = AllClients-reset cs a;
}
