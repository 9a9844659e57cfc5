-- ===== src/MsgQueue/Refine/Slots.antt =====
-- The array of queues of cw07/server.c as a list of members: the entries that are not -1.
use sysops.Common.{
  ℕ, zero, suc, ◌+◌, ◌<◌, ◌≤◌, ◌≡◌, refl, ap, sym, false, if◌then◌else◌, List, [], ◌∷◌, ◌++◌, ℤ,
  minus_one, eq_ℤ, set, length, replicate, arith,
}
use sysops.MsgQueue.{Msg, broadcast}
use sysops.MsgQueue.Room.{without, copies}

unfoldable pub members : ℕ → List ℤ → List (ℕ × ℤ)
members i [] = []
members i (q ∷ qs) = if eq_ℤ q minus_one then members (suc i) qs else (i, q) ∷ members (suc i) qs

abbrev pub AllIdle : List ℤ → Type 0
AllIdle [] = Unit {0}
AllIdle (q ∷ qs) = (q ≡ minus_one) × AllIdle qs

-- From entry `n` on, every entry is -1.
abbrev pub IdleFrom : ℕ → List ℤ → Type 0
IdleFrom zero qs = AllIdle qs
IdleFrom (suc n) [] = Unit {0}
IdleFrom (suc n) (q ∷ qs) = IdleFrom n qs

pub members-idle : (i : ℕ) (qs : List ℤ) → AllIdle qs → members i qs ≡ []
unfolding members
members-idle i [] h = refl
members-idle i (q ∷ qs) h = ground (arith, members-idle (suc i) qs h.1)

-- A queue in the first idle entry is one more member at the end.
pub members-set :
    (i n k : ℕ) (q : ℤ) (qs : List ℤ)
    → i + n ≡ k
    → n < length qs
    → IdleFrom n qs
    → eq_ℤ q minus_one ≡ false
    → members i (set qs n q) ≡ members i qs ++ ((k, q) ∷ [])
unfolding members
members-set i n k q [] e h d ne = absurd (omega arith)
members-set i zero k q (p ∷ qs) e h d ne =
    let same : i ≡ k = omega arith in ground (arith, members-idle (suc i) qs d.1)
members-set i (suc n) k q (p ∷ qs) e h d ne =
    ground (arith, members-set (suc i) n k q qs (omega arith) (omega arith) d ne)

-- A number below all others is not there.
without-members : (i j : ℕ) (qs : List ℤ) → i < j → without i (members j qs) ≡ members j qs
unfolding members without
without-members i j [] h = refl
without-members i j (q ∷ qs) h = ground (arith, without-members i (suc j) qs (omega arith))

-- Clearing entry `n` takes its member out.
pub members-set_minus :
    (i n k : ℕ) (qs : List ℤ)
    → i + n ≡ k
    → members i (set qs n minus_one) ≡ without k (members i qs)
unfolding members without
members-set_minus i n k [] e = refl
members-set_minus i zero k (q ∷ qs) e =
    let same : i ≡ k = omega arith in ground (arith, without-members k (suc i) qs)
members-set_minus i (suc n) k (q ∷ qs) e =
    ground (arith, members-set_minus (suc i) n k qs (omega arith))

pub IdleFrom-set :
    (n : ℕ) (q : ℤ) (qs : List ℤ) → n < length qs → IdleFrom n qs → IdleFrom (suc n) (set qs n q)
IdleFrom-set n q [] h d = absurd (omega arith)
IdleFrom-set zero q (p ∷ qs) h d = d.1
IdleFrom-set (suc n) q (p ∷ qs) h d = IdleFrom-set n q qs (omega arith) d

AllIdle-set : (k : ℕ) (qs : List ℤ) → AllIdle qs → AllIdle (set qs k minus_one)
AllIdle-set k [] d = tt
AllIdle-set zero (q ∷ qs) d = (refl, d.1)
AllIdle-set (suc k) (q ∷ qs) d = (d.0, AllIdle-set k qs d.1)

pub IdleFrom-set_minus : (n k : ℕ) (qs : List ℤ) → IdleFrom n qs → IdleFrom n (set qs k minus_one)
IdleFrom-set_minus zero k qs d = AllIdle-set k qs d
IdleFrom-set_minus (suc n) k [] d = tt
IdleFrom-set_minus (suc n) zero (q ∷ qs) d = d
IdleFrom-set_minus (suc n) (suc k) (q ∷ qs) d = IdleFrom-set_minus n k qs d

copies-idle : (m : Msg) (i : ℕ) (qs : List ℤ) → AllIdle qs → copies m (members i qs) ≡ []
unfolding copies
copies-idle m i qs d = ap (copies m) (members-idle i qs d)

-- The loop over the entries in use sends one copy to each member.
pub broadcast-copies :
    (m : Msg) (i n : ℕ) (qs : List ℤ) → IdleFrom n qs → broadcast m n qs ≡ copies m (members i qs)
unfolding broadcast copies members
broadcast-copies m i zero qs d = sym (copies-idle m i qs d)
broadcast-copies m i (suc n) [] d = refl
broadcast-copies m i (suc n) (q ∷ qs) d = ground (arith, broadcast-copies m (suc i) n qs d)

AllIdle-replicate : (n : ℕ) → AllIdle (replicate n minus_one)
AllIdle-replicate zero = tt
AllIdle-replicate (suc n) = (refl, AllIdle-replicate n)

pub IdleFrom-replicate : (n : ℕ) → IdleFrom 0 (replicate n minus_one)
IdleFrom-replicate n = AllIdle-replicate n

pub members-replicate : (n : ℕ) → members 0 (replicate n minus_one) ≡ []
members-replicate n = members-idle 0 (replicate n minus_one) (AllIdle-replicate n)

-- An idle entry that is set to -1 stays as it is.
pub set-idle : (n : ℕ) (qs : List ℤ) → IdleFrom n qs → set qs n minus_one ≡ qs
set-idle zero [] d = refl
set-idle (suc n) [] d = refl
set-idle zero (q ∷ qs) d = λ i. sym d.0 i ∷ qs
set-idle (suc n) (q ∷ qs) d = ap (λ r. q ∷ r) (set-idle n qs d)

pub set_outside : (n : ℕ) (qs : List ℤ) (q : ℤ) → length qs ≤ n → set qs n q ≡ qs
set_outside n [] q h = refl
set_outside zero (p ∷ qs) q h = absurd (omega arith)
set_outside (suc n) (p ∷ qs) q h = ap (λ r. p ∷ r) (set_outside n qs q (omega arith))
