-- ===== src/Chat/Registry/Alive.antt =====
-- The heartbeat of cw11/server.c on the table: mark every client, take the answers, drop the rest.
use sysops.Common.{
  ℕ, ◌≡◌, refl, Bool, true, false, ◌&&◌, ◌||◌, not, Option, none, some, List, [], ◌∷◌, ℤ, eq_ℤ,
  eq_ℤ_iff, minus_one, arith, ap, ◌∙◌, if◌then◌else◌,
}
use sysops.Chat.State.{Client}
use sysops.Chat.Registry.{is_named, has_name, answer, mark_awaiting, drop_dead, mark_one, reset}
use sysops.Chat.Registry.Names.{IsDistinct, lookup, has_name_cong}
use sysops.Chat.Registry.Table.{answer-IsDistinct}

-- The handlers of the answers that arrive, in their order.
unfoldable pub answer_all : List ℤ → List Client → List Client
answer_all [] cs = cs
answer_all (fd ∷ fds) cs = answer_all fds (answer fd cs)

unfoldable pub elem : ℤ → List ℤ → Bool
elem fd [] = false
elem fd (x ∷ xs) = eq_ℤ fd x || elem fd xs

-- What is left of a client after a round: it stays if its socket answered.
abbrev pub kept : List ℤ → Option ℤ → Option ℤ
kept fds none = none
kept fds (some fd) = if elem fd fds then some fd else none

unfoldable pub is_in_use : ℤ → List Client → Bool
is_in_use fd [] = false
is_in_use fd (c ∷ cs) = (c.valid && eq_ℤ c.socket fd) || is_in_use fd cs

-- The socket of a valid client stands in no entry before its own, where `handle_got_alive_message`
-- would stop, valid or not.
abbrev pub HasOwnSockets : List Client → Type 0
HasOwnSockets [] = Unit {0}
HasOwnSockets (c ∷ cs) = (is_in_use c.socket cs ≡ false) × HasOwnSockets cs

-- The socket of a registered name, and whether an answer is awaited on it.
record Status : Type 0 where
  socket : ℤ
  waiting : Bool

abbrev of_client : Client → Status
of_client c = record { socket = c.socket; waiting = c.awaiting_alive_response }

status : List ℕ → List Client → Option Status
status n [] = none
status n (c ∷ cs) = if is_named n c then some (of_client c) else status n cs

abbrev hear : ℤ → Option Status → Option Status
hear fd none = none
hear fd (some s) = some (record s { waiting = s.waiting && not (eq_ℤ s.socket fd) })

abbrev hear_all : List ℤ → Option Status → Option Status
hear_all fds none = none
hear_all fds (some s) = some (record s { waiting = s.waiting && not (elem s.socket fds) })

abbrev ask : Option ℤ → Option Status
ask none = none
ask (some fd) = some (record { socket = fd; waiting = true })

abbrev survive : Option Status → Option ℤ
survive none = none
survive (some s) = if s.waiting then none else some s.socket

hear_other :
    (fd : ℤ) (n : List ℕ) (cs : List Client)
    → is_in_use fd cs ≡ false
    → hear fd (status n cs) ≡ status n cs
unfolding is_in_use status
hear_other fd n [] h = refl
hear_other fd n (c ∷ cs) h = ground (arith, hear_other fd n cs)

status-answer :
    (fd : ℤ) (n : List ℕ) (cs : List Client)
    → HasOwnSockets cs
    → status n (answer fd cs) ≡ hear fd (status n cs)
unfolding status answer
status-answer fd n [] h = refl
status-answer fd n (c ∷ cs) h =
    ground (arith, status-answer fd n cs, hear_other c.socket n cs, eq_ℤ_iff c.socket fd)

is_in_use-answer : (s fd : ℤ) (cs : List Client) → is_in_use s (answer fd cs) ≡ is_in_use s cs
unfolding is_in_use answer
is_in_use-answer s fd [] = refl
is_in_use-answer s fd (c ∷ cs) = ground (arith, is_in_use-answer s fd cs)

pub HasOwnSockets-answer :
    (fd : ℤ) (cs : List Client) → HasOwnSockets cs → HasOwnSockets (answer fd cs)
unfolding answer
HasOwnSockets-answer fd [] h = tt
HasOwnSockets-answer fd (c ∷ cs) h = by_test (eq_ℤ c.socket fd) (HasOwnSockets-answer fd cs h.1)
  where
    by_test :
        (b : Bool)
        → HasOwnSockets (answer fd cs)
        → HasOwnSockets
            (if b then record c { awaiting_alive_response = false } ∷ cs else c ∷ answer fd cs)
    by_test true ih = h
    by_test false ih = (is_in_use-answer c.socket fd cs ∙ h.0, ih)

hear-hear_all :
    (fd : ℤ) (fds : List ℤ) (o : Option Status) → hear_all fds (hear fd o) ≡ hear_all (fd ∷ fds) o
unfolding elem
hear-hear_all fd fds none = refl
hear-hear_all fd fds (some s) = ground arith

hear_none : (o : Option Status) → o ≡ hear_all [] o
unfolding elem
hear_none none = refl
hear_none (some s) = ground arith

status-answer_all :
    (fds : List ℤ) (n : List ℕ) (cs : List Client)
    → HasOwnSockets cs
    → status n (answer_all fds cs) ≡ hear_all fds (status n cs)
unfolding answer_all
status-answer_all [] n cs h = hear_none (status n cs)
status-answer_all (fd ∷ fds) n cs h =
    status-answer_all fds n (answer fd cs) (HasOwnSockets-answer fd cs h)
    ∙ ap (hear_all fds) (status-answer fd n cs h)
    ∙ hear-hear_all fd fds (status n cs)

status-mark_awaiting :
    (n : List ℕ) (cs : List Client) → status n (mark_awaiting cs) ≡ ask (lookup n cs)
unfolding status mark_awaiting lookup
status-mark_awaiting n [] = refl
status-mark_awaiting n (c ∷ cs) = ground (arith, status-mark_awaiting n cs)

lookup-drop_dead-none :
    (n : List ℕ) (cs : List Client) → has_name n cs ≡ false → lookup n (drop_dead cs) ≡ none
unfolding has_name lookup drop_dead
lookup-drop_dead-none n [] h = refl
lookup-drop_dead-none n (c ∷ cs) h = ground (arith, lookup-drop_dead-none n cs)

lookup-drop_dead :
    (n : List ℕ) (cs : List Client)
    → IsDistinct cs
    → lookup n (drop_dead cs) ≡ survive (status n cs)
unfolding lookup drop_dead status
lookup-drop_dead n [] d = refl
lookup-drop_dead n (c ∷ cs) d =
    ground
      (arith, d.0, lookup-drop_dead n cs, lookup-drop_dead-none n cs, has_name_cong c.name n cs)

same_socket : (c : Client) → (mark_one c).socket ≡ c.socket
same_socket c = ground arith

is_in_use-mark_awaiting :
    (s : ℤ) (cs : List Client) → is_in_use s (mark_awaiting cs) ≡ is_in_use s cs
unfolding is_in_use mark_awaiting
is_in_use-mark_awaiting s [] = refl
is_in_use-mark_awaiting s (c ∷ cs) = ground (arith, is_in_use-mark_awaiting s cs)

pub HasOwnSockets-mark_awaiting :
    (cs : List Client) → HasOwnSockets cs → HasOwnSockets (mark_awaiting cs)
unfolding mark_awaiting
HasOwnSockets-mark_awaiting [] h = tt
HasOwnSockets-mark_awaiting (c ∷ cs) h = (
  ap (λ s. is_in_use s (mark_awaiting cs)) (same_socket c)
      ∙ is_in_use-mark_awaiting c.socket cs
      ∙ h.0,
  HasOwnSockets-mark_awaiting cs h.1,
)

answer_all-IsDistinct :
    (fds : List ℤ) (cs : List Client) → IsDistinct cs → IsDistinct (answer_all fds cs)
unfolding answer_all
answer_all-IsDistinct [] cs d = d
answer_all-IsDistinct (fd ∷ fds) cs d =
    answer_all-IsDistinct fds (answer fd cs) (answer-IsDistinct fd cs d)

survive-hear_all : (fds : List ℤ) (o : Option ℤ) → survive (hear_all fds (ask o)) ≡ kept fds o
survive-hear_all fds none = refl
survive-hear_all fds (some fd) = ground arith

-- After a round a name is registered, on the socket it had, exactly if that socket answered.
pub lookup-heartbeat :
    (fds : List ℤ) (n : List ℕ) (cs : List Client)
    → IsDistinct (mark_awaiting cs)
    → HasOwnSockets cs
    → lookup n (drop_dead (answer_all fds (mark_awaiting cs))) ≡ kept fds (lookup n cs)
lookup-heartbeat fds n cs d h =
    lookup-drop_dead n (answer_all fds (mark_awaiting cs)) (answer_all-IsDistinct fds _ d)
    ∙ ap survive (
        status-answer_all fds n (mark_awaiting cs) (HasOwnSockets-mark_awaiting cs h)
        ∙ ap (hear_all fds) (status-mark_awaiting n cs))
    ∙ survive-hear_all fds (lookup n cs)

is_in_use-reset : (s : ℤ) (cs : List Client) → is_in_use s (reset cs) ≡ false
unfolding is_in_use reset
is_in_use-reset s [] = refl
is_in_use-reset s (c ∷ cs) = is_in_use-reset s cs

-- Behind `init_clients` no socket is in use.
pub HasOwnSockets-reset : (cs : List Client) → HasOwnSockets (reset cs)
unfolding reset
HasOwnSockets-reset [] = tt
HasOwnSockets-reset (c ∷ cs) = (is_in_use-reset minus_one cs, HasOwnSockets-reset cs)
