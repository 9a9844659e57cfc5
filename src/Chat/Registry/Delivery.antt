-- ===== src/Chat/Registry/Delivery.antt =====
-- Who gets a chat message, and which socket a deleted client's was.
use sysops.Common.{
  ℕ, ◌≡◌, refl, ◌⊎◌, inl, inr, Bool, true, false, ◌&&◌, not, Option, none, some, List, [], ◌∷◌, ℤ,
  minus_one, arith, if◌then◌else◌,
}
use sysops.CMemory.{str_eq}
use sysops.CMemory.Strings.{str_eq_iff, str_eq_refl}
use sysops.Chat.Message.{Message, max_client_name}
use sysops.Chat.State.{Client, Effect, sent}
use sysops.Chat.Registry.{socket_to_close, broadcast, deliver}
use sysops.Chat.Registry.Names.{IsDistinct, lookup, has_name-eq-lookup, has_name_cong}

-- The effect is among those that are performed.
abbrev pub Performed : Effect → List Effect → Type 0
Performed e [] = ⊥
Performed e (x ∷ xs) = (e ≡ x) ⊎ Performed e xs

abbrev pub send_to : Option ℤ → Message → List Effect
send_to none msg = []
send_to (some socket) msg = sent socket msg ∷ []

abbrev pub socket_or : Option ℤ → ℤ
socket_or none = minus_one
socket_or (some socket) = socket

pub deliver-lookup :
    (receiver : List ℕ) (msg : Message) (cs : List Client)
    → deliver receiver msg cs ≡ send_to (lookup receiver cs) msg
unfolding deliver lookup
deliver-lookup receiver msg [] = refl
deliver-lookup receiver msg (c ∷ cs) = ground (arith, deliver-lookup receiver msg cs)

pub socket_to_close-lookup :
    (name : List ℕ) (cs : List Client) → socket_to_close name cs ≡ socket_or (lookup name cs)
unfolding socket_to_close lookup
socket_to_close-lookup name [] = refl
socket_to_close-lookup name (c ∷ cs) = ground (arith, socket_to_close-lookup name cs)

-- A client behind the first has another name than the first.
lookup-cons :
    (n : List ℕ) {fd : ℤ} (c : Client) (cs : List Client)
    → IsDistinct (c ∷ cs)
    → lookup n cs ≡ some fd
    → lookup n (c ∷ cs) ≡ some fd
unfolding lookup
lookup-cons n c cs d h = ground (arith, d.0, has_name-eq-lookup n cs, has_name_cong c.name n cs)

module _ (sender : List ℕ) (response : Message) (fd : ℤ) where
  -- Some registered client, not of the sender's name, has that socket.
  abbrev pub Recipient : List Client → Type 0
  Recipient cs = (n : List ℕ) × (lookup n cs ≡ some fd) × (str_eq max_client_name n sender ≡ false)

  Recipient-cons :
      (c : Client) (cs : List Client) → IsDistinct (c ∷ cs) → Recipient cs → Recipient (c ∷ cs)
  Recipient-cons c cs d r = (r.0, lookup-cons r.0 c cs d r.1, r.2)

  pub Recipient-broadcast :
      (cs : List Client)
      → IsDistinct cs
      → Performed (sent fd response) (broadcast sender response cs)
      → Recipient cs
  unfolding broadcast lookup
  Recipient-broadcast [] d p = elim p [ ]
  Recipient-broadcast (c ∷ cs) d p =
      by_test (c.valid && not (str_eq 64 c.name sender)) refl p (Recipient-broadcast cs d.1)
    where
      by_test :
          (b : Bool)
          → c.valid && not (str_eq 64 c.name sender) ≡ b
          → Performed (sent fd response) (
              if b
              then sent c.socket response ∷ broadcast sender response cs
              else broadcast sender response cs)
          → (Performed (sent fd response) (broadcast sender response cs) → Recipient cs)
          → Recipient (c ∷ cs)
      by_test true e (inl here) ih = (c.name, ground (arith, str_eq_refl 64 c.name), ground arith)
      by_test true e (inr there) ih = Recipient-cons c cs d (ih there)
      by_test false e there ih = Recipient-cons c cs d (ih there)

  pub broadcast_of_Recipient :
      (n : List ℕ) (cs : List Client)
      → lookup n cs ≡ some fd
      → str_eq max_client_name n sender ≡ false
      → Performed (sent fd response) (broadcast sender response cs)
  unfolding broadcast lookup
  broadcast_of_Recipient n [] h ne = cc
  broadcast_of_Recipient n (c ∷ cs) h ne = ground (
    arith,
    broadcast_of_Recipient n cs,
    str_eq_iff 64 c.name n,
    str_eq_iff 64 c.name sender,
    str_eq_iff 64 n sender,
  )
