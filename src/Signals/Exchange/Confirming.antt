-- ===== src/Signals/Exchange/Confirming.antt =====
-- Which senders of cw05/zad2 are confirmed.
use sysops.Common.{
  ℕ, ◌+◌, ◌≡◌, refl, ◌∙◌, ap, sym, Bool, true, if◌then◌else◌, Option, none, some, List, [], ◌∷◌,
  ◌++◌, arith,
}
use mathlib.Core.Path.{subst}
use sysops.Signals.{Output, Catcher, pausing, left, sig_handler}
use sysops.Signals.Requests.{confirmed, confirmed-append}
use sysops.Signals.Exchange.{
  Point, sending, queued, suspended, succeeded, failed, Sender, Exchange, signalled, sigqueue,
  Event, sends, suspends, catches, send_from, suspend_from, handle, catch_pending, act, acts,
  asking, begin,
}
use sysops.Signals.Exchange.Counting.{
  AllFine, Fine, Fits, IsFine, confirmed-handler, count, count-append, count_other, count_own,
  own_waiting, signalled-Fine, update_cases, waiting_for,
}

module _ (out : List Output) (f : ℕ → Sender) (p : ℕ) where
  abbrev talk : Catcher → Option (ℕ × ℕ) → Exchange
  talk c pending = record { catcher = c; pending = pending; output = out; senders = f }

  own :
      (pt : Point) (c : Catcher) (pending : Option (ℕ × ℕ))
      → (f p).point ≡ pt
      → AllFine (talk c pending)
      → Fits pt (f p).received (waiting_for p pending)
  own pt c pending at all =
      subst (λ r. Fits r (f p).received (waiting_for p pending)) at (all p).fits

  send_from-AllFine :
      (pt : Point) (c : Catcher) (pending : Option (ℕ × ℕ))
      → (f p).point ≡ pt
      → AllFine (talk c pending)
      → AllFine (send_from pt p (talk c pending))
  unfolding send_from sigqueue
  send_from-AllFine sending (left ok) pending at all q =
      update_cases (Fine pending out) f p q (record (f p) { point = failed })
        (record { fits = own sending (left ok) pending at all; counted = (all p).counted })
        (λ e. all q)
  send_from-AllFine sending (pausing k) none at all q =
      update_cases (Fine (some (p, (f p).work_type)) out) f p q (record (f p) { point = queued })
        (record {
          fits = let h = own sending (pausing k) none at all in ground arith;
          counted = (all p).counted;
        })
        (λ e. rw e (all q))
  send_from-AllFine sending (pausing k) (some other) at all q =
      update_cases (Fine (some other) out) f p q (record (f p) { point = queued })
        (record {
          fits = let h = own sending (pausing k) (some other) at all in omega arith;
          counted = (all p).counted;
        })
        (λ e. all q)
  send_from-AllFine pt c pending at all q = all q

  suspend_from-AllFine :
      (pt : Point) (c : Catcher) (pending : Option (ℕ × ℕ))
      → (f p).point ≡ pt
      → AllFine (talk c pending)
      → AllFine (suspend_from pt p (talk c pending))
  unfolding suspend_from
  suspend_from-AllFine queued c pending at all q =
      update_cases (Fine pending out) f p q (record (f p) { point = suspended })
        (record { fits = own queued c pending at all; counted = (all p).counted }) (λ e. all q)
  suspend_from-AllFine pt c pending at all q = all q

  one_more :
      (work k : ℕ)
      → confirmed (out ++ (sig_handler (record { pid = p; work_type = work; reached = true }) k).0)
        ≡ confirmed out ++ (p ∷ [])
  one_more work k =
      confirmed-append out _ ∙ ap (λ c. confirmed out ++ c) (confirmed-handler p work k)

  handle-AllFine :
      (k work : ℕ) (c : Catcher)
      → AllFine (talk c (some (p, work)))
      → AllFine (handle k p work (talk c (some (p, work))))
  unfolding handle
  handle-AllFine k work c all q =
      let told =
        signalled-Fine (f p).work_type (f p).point (f p).received (count p (confirmed out))
          (subst (λ n. Fits (f p).point (f p).received n) (own_waiting p work) (all p).fits)
          (all p).counted in
      rw (told.0, one_more work k, count-append q (confirmed out) (p ∷ []))
        (update_cases (λ r s. IsFine 0 (count r (confirmed out) + count r (p ∷ [])) s) f p q
          (signalled (f p))
          (subst (λ n. IsFine 0 (count p (confirmed out) + n) (signalled (f p))) (sym (count_own p))
            told.1)
          (λ e. record {
            fits = subst (λ b. Fits (f q).point (f q).received (if b then 1 else 0)) e (all q).fits;
            counted = omega (arith, (all q).counted, count_other p q e);
          }))

act-AllFine : (e : Event) (x : Exchange) → AllFine x → AllFine (act e x)
unfolding act
act-AllFine (sends p) x all =
    send_from-AllFine x.output x.senders p (x.senders p).point x.catcher x.pending refl all
act-AllFine (suspends p) x all =
    suspend_from-AllFine x.output x.senders p (x.senders p).point x.catcher x.pending refl all
act-AllFine catches x all = caught x.catcher x.pending all
  where
    caught :
        (c : Catcher) (pending : Option (ℕ × ℕ))
        → AllFine (record x { catcher = c; pending = pending })
        → AllFine (catch_pending c pending (record x { catcher = c; pending = pending }))
    caught (pausing k) (some (p, work)) all =
        handle-AllFine x.output x.senders p k work (pausing k) all
    caught (pausing k) none all = all
    caught (left ok) pending all = all

pub acts-AllFine : (es : List Event) (x : Exchange) → AllFine x → AllFine (acts es x)
unfolding acts
acts-AllFine [] x all = all
acts-AllFine (e ∷ es) x all = acts-AllFine es (act e x) (act-AllFine e x all)

asking-IsFine : (r : Option ℕ) → IsFine 0 0 (asking r)
asking-IsFine none = record { fits = (refl, refl); counted = refl }
asking-IsFine (some work) = record { fits = (refl, refl); counted = refl }

pub begin-AllFine : (handles : Bool) (requests : ℕ → Option ℕ) → AllFine (begin handles requests)
unfolding count
begin-AllFine handles requests q = asking-IsFine (requests q)

-- In any order of the steps of the catcher and of any number of senders, each with one request: a
-- sender that has returned with EXIT_SUCCESS has run its handler exactly once, and the catcher has
-- confirmed its request exactly once.
pub acts-succeeded :
    (handles : Bool) (requests : ℕ → Option ℕ) (es : List Event) (p : ℕ)
    → ((acts es (begin handles requests)).senders p).point ≡ succeeded
    → (((acts es (begin handles requests)).senders p).received ≡ 1)
      × (count p (confirmed (acts es (begin handles requests)).output) ≡ 1)
acts-succeeded handles requests es p e =
    let x = acts es (begin handles requests) in
    let v = acts-AllFine es (begin handles requests) (begin-AllFine handles requests) p in
    let h = subst (λ pt. Fits pt (x.senders p).received (waiting_for p x.pending)) e v.fits in
    (h.0, sym v.counted ∙ h.0)
