-- ===== src/Chat/Registry/Sockets.antt =====
-- The sockets in the table of cw11/server.c: what the loops over it send and close.
use sysops.Common.{
  ◌≡◌, refl, ◌∙◌, ap, false, ◌&&◌, if◌then◌else◌, List, [], ◌∷◌, ◌++◌, ℤ, eq_ℤ_iff, arith,
}
use sysops.Chat.Message.{Message}
use sysops.Chat.State.{Client, Effect, sent, closed}
use sysops.Chat.Registry.{answer, mark_awaiting, ask_alive, close_dead, dismiss}
use sysops.Chat.Registry.Alive.{
  answer_all, elem, is_in_use, HasOwnSockets, HasOwnSockets-answer, HasOwnSockets-mark_awaiting,
}

-- The sockets of the registered clients, in the order of the table.
unfoldable pub sockets : List Client → List ℤ
sockets [] = []
sockets (c ∷ cs) = if c.valid then c.socket ∷ sockets cs else sockets cs

-- Those among them that have not answered.
unfoldable pub silent : List ℤ → List ℤ → List ℤ
silent fds [] = []
silent fds (s ∷ ss) = if elem s fds then silent fds ss else s ∷ silent fds ss

-- The sockets on which an answer is awaited.
unfoldable awaited : List Client → List ℤ
awaited [] = []
awaited (c ∷ cs) =
    if c.valid && c.awaiting_alive_response then c.socket ∷ awaited cs else awaited cs

-- The effects on each socket.
unfoldable pub each : (ℤ → List Effect) → List ℤ → List Effect
each f [] = []
each f (s ∷ ss) = f s ++ each f ss

abbrev pub asking : Message → ℤ → List Effect
asking m s = sent s m ∷ []

abbrev pub closing : ℤ → List Effect
closing s = closed s ∷ []

-- A message, and then the end of the connection.
abbrev pub dismissing : Message → ℤ → List Effect
dismissing m s = sent s m ∷ closed s ∷ []

pub ask_alive-sockets :
    (m : Message) (cs : List Client) → ask_alive m cs ≡ each (asking m) (sockets cs)
unfolding ask_alive sockets each
ask_alive-sockets m [] = refl
ask_alive-sockets m (c ∷ cs) = ground (arith, ask_alive-sockets m cs)

pub dismiss-sockets :
    (m : Message) (cs : List Client) → dismiss m cs ≡ each (dismissing m) (sockets cs)
unfolding dismiss sockets each
dismiss-sockets m [] = refl
dismiss-sockets m (c ∷ cs) = ground (arith, dismiss-sockets m cs)

close_dead-awaited : (cs : List Client) → close_dead cs ≡ each closing (awaited cs)
unfolding close_dead awaited each
close_dead-awaited [] = refl
close_dead-awaited (c ∷ cs) = ground (arith, close_dead-awaited cs)

awaited-mark_awaiting : (cs : List Client) → awaited (mark_awaiting cs) ≡ sockets cs
unfolding awaited mark_awaiting sockets
awaited-mark_awaiting [] = refl
awaited-mark_awaiting (c ∷ cs) = ground (arith, awaited-mark_awaiting cs)

not_in_use :
    (fd : ℤ) (cs : List Client)
    → is_in_use fd cs ≡ false
    → silent (fd ∷ []) (awaited cs) ≡ awaited cs
unfolding is_in_use awaited silent elem
not_in_use fd [] h = refl
not_in_use fd (c ∷ cs) h = ground (arith, not_in_use fd cs, eq_ℤ_iff c.socket fd)

awaited-answer :
    (fd : ℤ) (cs : List Client)
    → HasOwnSockets cs
    → awaited (answer fd cs) ≡ silent (fd ∷ []) (awaited cs)
unfolding awaited answer silent elem
awaited-answer fd [] h = refl
awaited-answer fd (c ∷ cs) h =
    ground (arith, awaited-answer fd cs, not_in_use c.socket cs, eq_ℤ_iff c.socket fd)

silent_none : (ss : List ℤ) → ss ≡ silent [] ss
unfolding silent elem
silent_none [] = refl
silent_none (s ∷ ss) = ap (λ r. s ∷ r) (silent_none ss)

silent-silent : (fd : ℤ) (fds ss : List ℤ) → silent fds (silent (fd ∷ []) ss) ≡ silent (fd ∷ fds) ss
unfolding silent elem
silent-silent fd fds [] = refl
silent-silent fd fds (s ∷ ss) = ground (arith, silent-silent fd fds ss)

awaited-answer_all :
    (fds : List ℤ) (cs : List Client)
    → HasOwnSockets cs
    → awaited (answer_all fds cs) ≡ silent fds (awaited cs)
unfolding answer_all
awaited-answer_all [] cs h = silent_none (awaited cs)
awaited-answer_all (fd ∷ fds) cs h =
    awaited-answer_all fds (answer fd cs) (HasOwnSockets-answer fd cs h)
    ∙ ap (silent fds) (awaited-answer fd cs h)
    ∙ silent-silent fd fds (awaited cs)

-- After the answers, the sockets that are closed are those that did not answer.
pub close_dead-silent :
    (fds : List ℤ) (cs : List Client)
    → HasOwnSockets cs
    → close_dead (answer_all fds (mark_awaiting cs)) ≡ each closing (silent fds (sockets cs))
close_dead-silent fds cs h =
    close_dead-awaited (answer_all fds (mark_awaiting cs))
    ∙ ap (each closing) (
        awaited-answer_all fds (mark_awaiting cs) (HasOwnSockets-mark_awaiting cs h)
        ∙ ap (silent fds) (awaited-mark_awaiting cs))
