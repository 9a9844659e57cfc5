-- ===== src/Signals/Exchange/Counting.antt =====
-- What holds of each sender of cw05/zad2: its signals that wait and its confirmations.
use sysops.Common.{
  ℕ, ◌+◌, ◌≤◌, ◌≡◌, ◌==◌, refl, ◌∙◌, ap, true, false, Bool-cases, inl, inr, if◌then◌else◌, Option,
  none, some, List, [], ◌∷◌, ◌++◌, arith,
}
use mathlib.Core.Path.{subst}
use sysops.Signals.{work_finish, Output, exiting, confirms, sig_handler, work_dispatch}
use sysops.Signals.Requests.{confirmed, confirmed-append, confirmed-work}
use sysops.Signals.Exchange.{
  Point, queued, suspended, succeeded, Sender, Exchange, update, is_alive, signalled,
}

-- How often a number stands in a list.
unfoldable pub count : ℕ → List ℕ → ℕ
count p [] = 0
count p (q ∷ qs) = if q == p then 1 + count p qs else count p qs

pub count-append : (p : ℕ) (xs ys : List ℕ) → count p (xs ++ ys) ≡ count p xs + count p ys
unfolding count
count-append p [] ys = omega arith
count-append p (x ∷ xs) ys = ground (arith, count-append p xs ys)

-- The signals of a sender that wait for the catcher.
abbrev pub waiting_for : ℕ → Option (ℕ × ℕ) → ℕ
waiting_for p none = 0
waiting_for p (some (q, work)) = if q == p then 1 else 0

-- How many confirmations a sender has had, with its signals that wait, by where it stands.
abbrev pub Fits : Point → ℕ → ℕ → Type 0
Fits queued r n = r + n ≤ 1
Fits suspended r n = r + n ≤ 1
Fits succeeded r n = (r ≡ 1) × (n ≡ 0)
Fits _ r n = (r ≡ 0) × (n ≡ 0)

pub record IsFine (waiting confirmations : ℕ) (s : Sender) : Type 0 where
  pub fits : Fits s.point s.received waiting
  pub counted : s.received ≡ confirmations

-- What holds of the sender `q`.
abbrev pub Fine : Option (ℕ × ℕ) → List Output → ℕ → Sender → Type 0
Fine pending out q s = IsFine (waiting_for q pending) (count q (confirmed out)) s

abbrev pub AllFine : Exchange → Type 0
AllFine x = (q : ℕ) → Fine x.pending x.output q (x.senders q)

pub update_cases :
    (P : ℕ → Sender → Type 0) (f : ℕ → Sender) (p q : ℕ) (s : Sender)
    → P p s
    → ((p == q) ≡ false → P q (f q))
    → P q (update f p s q)
update_cases P f p q s own other = elim (Bool-cases (p == q)) [
  | inl same ↦ rw same (subst (λ r. P r s) (ground arith) own)
  | inr differ ↦ rw differ (other differ)
]

-- Whom a request confirms.
pub confirmed-handler :
    (p work k : ℕ)
    → confirmed (sig_handler (record { pid = p; work_type = work; reached = true }) k).0 ≡ p ∷ []
unfolding sig_handler
confirmed-handler p work k = elim (Bool-cases (work == work_finish)) [
  | inl ends ↦ rw ends (
      confirmed-append (work_dispatch k work) (confirms p ∷ exiting ∷ [])
      ∙ ap (λ c. c ++ (p ∷ [])) (confirmed-work k work))
  | inr goes ↦ rw goes (
      confirmed-append (work_dispatch k work) (confirms p ∷ [])
      ∙ ap (λ c. c ++ (p ∷ [])) (confirmed-work k work))
]

pub own_waiting : (p work : ℕ) → waiting_for p (some (p, work)) ≡ 1
own_waiting p work = ground arith

pub count_own : (p : ℕ) → count p (p ∷ []) ≡ 1
unfolding count
count_own p = ground arith

pub count_other : (p q : ℕ) → (p == q) ≡ false → count q (p ∷ []) ≡ 0
unfolding count
count_other p q e = rw e refl

-- A sender whose signal waits has a handler, which runs then.
pub signalled-Fine :
    (work : ℕ) (pt : Point) (r c : ℕ)
    → Fits pt r 1
    → r ≡ c
    → (is_alive pt ≡ true)
      × IsFine 0 (c + 1) (signalled (record { work_type = work; point = pt; received = r }))
signalled-Fine work queued r c h e = (refl, record { fits = omega arith; counted = omega arith })
signalled-Fine work suspended r c h e =
    (refl, record { fits = (omega arith, refl); counted = omega arith })
signalled-Fine work pt r c h e = absurd (omega arith)
