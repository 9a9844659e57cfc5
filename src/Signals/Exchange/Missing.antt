-- ===== src/Signals/Exchange/Missing.antt =====
-- Senders of cw05/zad2 that wait for a confirmation that does not come.
use sysops.Common.{
  ℕ, ◌≡◌, ◌≢◌, ◌==◌, refl, ◌∙◌, ap, sym, Bool, false, Bool-cases, inl, inr, Option, none, some,
  List, [], ◌∷◌, arith,
}
use mathlib.Core.Path.{subst}
use sysops.Signals.{Output, Catcher, pausing, left}
use sysops.Signals.Exchange.{
  Point, sending, queued, suspended, Sender, Exchange, update, is_alive, sigqueue, Event, sends,
  suspends, catches, send_from, suspend_from, handle, catch_pending, act, acts, begin,
}
use sysops.Signals.Exchange.Counting.{waiting_for, Fits}
use sysops.Signals.Exchange.Confirming.{acts-AllFine, begin-AllFine}

-- A sender in `sigsuspend` whose signal does not wait for the catcher.
abbrev IsMissed : ℕ → Exchange → Type 0
IsMissed p x = ((x.senders p).point ≡ suspended) × (waiting_for p x.pending ≡ 0)

module _ (p : ℕ) (out : List Output) (f : ℕ → Sender) where
  abbrev talk : Catcher → Option (ℕ × ℕ) → Exchange
  talk c pending = record { catcher = c; pending = pending; output = out; senders = f }

  -- Another sender moves.
  other_differs :
      (q : ℕ) (pt : Point)
      → (f p).point ≡ suspended
      → (f q).point ≡ pt
      → pt ≢ suspended
      → (q == p) ≡ false
  other_differs q pt e at ne = elim (Bool-cases (q == p)) [
    | inl same ↦ absurd (ne (sym at ∙ ap (λ r. (f r).point) (ground arith) ∙ e))
    | inr differ ↦ differ
  ]

  -- A sender that is changed is not the one that waits.
  unchanged :
      (q : ℕ) (s : Sender)
      → (q == p) ≡ false
      → (f p).point ≡ suspended
      → (update f q s p).point ≡ suspended
  unchanged q s differ e = rw differ e

  send_from-IsMissed :
      (q : ℕ) (pt : Point) (c : Catcher) (pending : Option (ℕ × ℕ))
      → (f q).point ≡ pt
      → IsMissed p (talk c pending)
      → IsMissed p (send_from pt q (talk c pending))
  unfolding send_from sigqueue
  send_from-IsMissed q sending (left ok) pending at v =
      (unchanged q _ (other_differs q sending v.0 at (λ e. ground arith)) v.0, v.1)
  send_from-IsMissed q sending (pausing k) none at v =
      let differ = other_differs q sending v.0 at (λ e. ground arith) in
      (unchanged q _ differ v.0, rw differ refl)
  send_from-IsMissed q sending (pausing k) (some other) at v =
      (unchanged q _ (other_differs q sending v.0 at (λ e. ground arith)) v.0, v.1)
  send_from-IsMissed q pt c pending at v = v

  suspend_from-IsMissed :
      (q : ℕ) (pt : Point) (c : Catcher) (pending : Option (ℕ × ℕ))
      → (f q).point ≡ pt
      → IsMissed p (talk c pending)
      → IsMissed p (suspend_from pt q (talk c pending))
  unfolding suspend_from
  suspend_from-IsMissed q queued c pending at v =
      (unchanged q _ (other_differs q queued v.0 at (λ e. ground arith)) v.0, v.1)
  suspend_from-IsMissed q pt c pending at v = v

  catch_pending-IsMissed :
      (c d : Catcher) (pending : Option (ℕ × ℕ))
      → IsMissed p (talk d pending)
      → IsMissed p (catch_pending c pending (talk d pending))
  unfolding catch_pending handle
  catch_pending-IsMissed (pausing k) d (some (q, work)) v =
      let differ : (q == p) ≡ false = ground arith in
      elim (Bool-cases (is_alive (f q).point)) [
        | inl lives ↦ rw lives (unchanged q _ differ v.0, refl)
        | inr gone ↦ rw gone (v.0, refl)
      ]
  catch_pending-IsMissed (pausing k) d none v = v
  catch_pending-IsMissed (left ok) d pending v = v

act-IsMissed : (e : Event) (p : ℕ) (x : Exchange) → IsMissed p x → IsMissed p (act e x)
unfolding act
act-IsMissed (sends q) p x v =
    send_from-IsMissed p x.output x.senders q (x.senders q).point x.catcher x.pending refl v
act-IsMissed (suspends q) p x v =
    suspend_from-IsMissed p x.output x.senders q (x.senders q).point x.catcher x.pending refl v
act-IsMissed catches p x v =
    catch_pending-IsMissed p x.output x.senders x.catcher x.catcher x.pending v

acts-IsMissed : (es : List Event) (p : ℕ) (x : Exchange) → IsMissed p x → IsMissed p (acts es x)
unfolding acts
acts-IsMissed [] p x v = v
acts-IsMissed (e ∷ es) p x v = acts-IsMissed es p (act e x) (act-IsMissed e p x v)

-- A sender whose confirmation came between `sigqueue` and `sigsuspend`.
early_IsMissed :
    (handles : Bool) (requests : ℕ → Option ℕ) (es : List Event) (p : ℕ)
    → ((acts es (begin handles requests)).senders p).point ≡ suspended
    → ((acts es (begin handles requests)).senders p).received ≡ 1
    → IsMissed p (acts es (begin handles requests))
early_IsMissed handles requests es p at once =
    let x = acts es (begin handles requests) in
    let v = acts-AllFine es (begin handles requests) (begin-AllFine handles requests) p in
    let h = subst (λ pt. Fits pt (x.senders p).received (waiting_for p x.pending)) at v.fits in
    (at, omega arith)

-- A sender in `sigsuspend` whose signal does not wait for the catcher (it was dropped while another
-- one was pending, or its confirmation came between `sigqueue` and `sigsuspend`) stays there, in
-- any order of further steps.
pub acts-missed :
    (x : Exchange) (es : List Event) (p : ℕ)
    → (x.senders p).point ≡ suspended
    → waiting_for p x.pending ≡ 0
    → ((acts es x).senders p).point ≡ suspended
acts-missed x es p at nothing = (acts-IsMissed es p x (at, nothing)).0
