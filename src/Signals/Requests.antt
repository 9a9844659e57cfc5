-- ===== src/Signals/Requests.antt =====
-- A run of the catcher of cw05/zad2 over the requests of its senders.
use sysops.Common.{
  ℕ, ◌+◌, ◌≡◌, ◌≢◌, ◌==◌, Bool, refl, ◌∙◌, ap, sym, true, false, if◌then◌else◌, List, [], ◌∷◌, ◌++◌,
  map, loop, arith, append-nil,
}
use mathlib.Core.Path.{subst}
use sysops.Signals.{
  work_print_n_changes, work_finish, Output, from_pid, number, work_type_changes, exiting, confirms,
  Catcher, pausing, left, print_numbers, work_dispatch, Request, sig_handler, catch_from,
}

-- The processes that get a confirmation, in order.
abbrev pub confirmed : List Output → List ℕ
confirmed [] = []
confirmed (confirms pid ∷ out) = pid ∷ confirmed out
confirmed (from_pid pid ∷ out) = confirmed out
confirmed (number i ∷ out) = confirmed out
confirmed (work_type_changes n ∷ out) = confirmed out
confirmed (exiting ∷ out) = confirmed out

-- The numbers of changes that are printed.
abbrev pub changes : List Output → List ℕ
changes [] = []
changes (confirms pid ∷ out) = changes out
changes (from_pid pid ∷ out) = changes out
changes (number i ∷ out) = changes out
changes (work_type_changes n ∷ out) = n ∷ changes out
changes (exiting ∷ out) = changes out

-- Requests that are confirmed and go on.
abbrev pub Going : List Request → Type 0
Going [] = Unit {0}
Going (r ∷ rs) = (r.reached ≡ true) × (r.work_type ≢ work_finish) × Going rs

-- For each request for the number of changes, how many requests came before it.
unfoldable pub before_each : ℕ → List Request → List ℕ
before_each n [] = []
before_each n (r ∷ rs) =
    (if r.work_type == work_print_n_changes then n ∷ [] else []) ++ before_each (n + 1) rs

pub confirmed-append : (xs ys : List Output) → confirmed (xs ++ ys) ≡ confirmed xs ++ confirmed ys
confirmed-append [] ys = refl
confirmed-append (confirms pid ∷ xs) ys = ap (λ r. pid ∷ r) (confirmed-append xs ys)
confirmed-append (from_pid pid ∷ xs) ys = confirmed-append xs ys
confirmed-append (number i ∷ xs) ys = confirmed-append xs ys
confirmed-append (work_type_changes n ∷ xs) ys = confirmed-append xs ys
confirmed-append (exiting ∷ xs) ys = confirmed-append xs ys

changes-append : (xs ys : List Output) → changes (xs ++ ys) ≡ changes xs ++ changes ys
changes-append [] ys = refl
changes-append (confirms pid ∷ xs) ys = changes-append xs ys
changes-append (from_pid pid ∷ xs) ys = changes-append xs ys
changes-append (number i ∷ xs) ys = changes-append xs ys
changes-append (work_type_changes n ∷ xs) ys = ap (λ r. n ∷ r) (changes-append xs ys)
changes-append (exiting ∷ xs) ys = changes-append xs ys

pub confirmed-work : (updates work : ℕ) → confirmed (work_dispatch updates work) ≡ []
unfolding work_dispatch print_numbers loop
confirmed-work updates work = ground arith

changes-work :
    (updates work : ℕ)
    → changes (work_dispatch updates work)
      ≡ (if work == work_print_n_changes then updates ∷ [] else [])
unfolding work_dispatch print_numbers loop
changes-work updates work = ground arith

-- What the catcher prints and sends for a request that goes on.
abbrev said : Request → ℕ → List Output
said r k = from_pid r.pid ∷ work_dispatch k r.work_type ++ (confirms r.pid ∷ [])

-- One request that goes on.
one_goes :
    (r : Request) (k : ℕ)
    → r.reached ≡ true
    → r.work_type ≢ work_finish
    → sig_handler r k ≡ (said r k, pausing (k + 1))
unfolding sig_handler
one_goes r k h ne =
    let goes : (r.work_type == work_finish) ≡ false = ground arith in simp (h, goes) refl

one_confirmed : (r : Request) (k : ℕ) → confirmed (said r k) ≡ r.pid ∷ []
one_confirmed r k =
    confirmed-append (work_dispatch k r.work_type) (confirms r.pid ∷ [])
    ∙ ap (λ c. c ++ (r.pid ∷ [])) (confirmed-work k r.work_type)

one_changes :
    (r : Request) (k : ℕ)
    → changes (said r k) ≡ (if r.work_type == work_print_n_changes then k ∷ [] else [])
one_changes r k =
    changes-append (work_dispatch k r.work_type) (confirms r.pid ∷ [])
    ∙ append-nil (changes (work_dispatch k r.work_type))
    ∙ changes-work k r.work_type

-- What a run shows: who is confirmed, which numbers are printed, and where the catcher is.
pub record Shows (out : List Output × Catcher) (pids ns : List ℕ) (c : Catcher) : Type 0 where
  pub confirmations : confirmed out.0 ≡ pids
  pub numbers : changes out.0 ≡ ns
  pub last : out.1 ≡ c

-- The catcher behind a request, put in front of what comes later.
then_later :
    (r : Request) (k : ℕ) (rest : List Request) (pids ns : List ℕ) (c : Catcher)
    → r.reached ≡ true
    → r.work_type ≢ work_finish
    → Shows (catch_from (pausing (k + 1)) rest) pids ns c
    → Shows
        (catch_from (pausing k) (r ∷ rest))
        (r.pid ∷ pids)
        ((if r.work_type == work_print_n_changes then k ∷ [] else []) ++ ns)
        c
unfolding catch_from
then_later r k rest pids ns c h ne s =
    subst
      (λ p.
        Shows (p.0 ++ (catch_from p.1 rest).0, (catch_from p.1 rest).1) (r.pid ∷ pids)
          ((if r.work_type == work_print_n_changes then k ∷ [] else []) ++ ns) c)
      (sym (one_goes r k h ne))
      (record {
        confirmations =
            confirmed-append (said r k) (catch_from (pausing (k + 1)) rest).0
            ∙ ap (λ x. x ++ confirmed (catch_from (pausing (k + 1)) rest).0) (one_confirmed r k)
            ∙ ap (λ x. r.pid ∷ x) s.confirmations;
        numbers =
            changes-append (said r k) (catch_from (pausing (k + 1)) rest).0
            ∙ ap (λ x. x ++ changes (catch_from (pausing (k + 1)) rest).0) (one_changes r k)
            ∙ ap (λ x. (if r.work_type == work_print_n_changes then k ∷ [] else []) ++ x) s.numbers;
        last = s.last;
      })

left_behind : (ok : Bool) (more : List Request) → catch_from (left ok) more ≡ ([], left ok)
unfolding catch_from
left_behind ok [] = refl
left_behind ok (r ∷ more) = refl

-- What the catcher does on a request to finish.
finish_lem :
    (f : Request) (k : ℕ)
    → f.reached ≡ true
    → f.work_type ≡ work_finish
    → sig_handler f k ≡ (from_pid f.pid ∷ confirms f.pid ∷ exiting ∷ [], left true)
unfolding sig_handler work_dispatch
finish_lem f k h e = simp (h, e) refl

finishes :
    (f : Request) (k : ℕ) (more : List Request)
    → f.reached ≡ true
    → f.work_type ≡ work_finish
    → Shows (catch_from (pausing k) (f ∷ more)) (f.pid ∷ []) [] (left true)
unfolding catch_from
finishes f k more h e =
    subst
      (λ p.
        Shows (p.0 ++ (catch_from p.1 more).0, (catch_from p.1 more).1) (f.pid ∷ []) [] (left true))
      (sym (finish_lem f k h e))
      (subst
        (λ q.
          Shows ((from_pid f.pid ∷ confirms f.pid ∷ exiting ∷ []) ++ q.0, q.1) (f.pid ∷ []) []
            (left true))
        (sym (left_behind true more))
        (record { confirmations = refl; numbers = refl; last = refl }))

-- Requests that can be confirmed, then one to finish, then any others: the catcher confirms each
-- of them up to the finishing one to its sender, once and in order, and none behind it; each
-- request for the number of changes prints how many requests came before it (counted on from `k`);
-- and it leaves with EXIT_SUCCESS.
pub catch_from-finish :
    (k : ℕ) (rs : List Request) (f : Request) (more : List Request)
    → Going rs
    → f.reached ≡ true
    → f.work_type ≡ work_finish
    → Shows
        (catch_from (pausing k) (rs ++ (f ∷ more)))
        (map (λ r. r.pid) rs ++ (f.pid ∷ []))
        (before_each k rs)
        (left true)
unfolding before_each
catch_from-finish k [] f more g h e = finishes f k more h e
catch_from-finish k (r ∷ rs) f more (reached, goes, g) h e =
    then_later r k (rs ++ (f ∷ more)) _ _ _ reached goes (catch_from-finish (k + 1) rs f more g h e)
