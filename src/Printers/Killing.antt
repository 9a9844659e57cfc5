-- ===== src/Printers/Killing.antt =====
-- What the acts of the main functions of cw08 make of the shared memory and of the processes.
use sysops.Common.{
  ℕ, zero, suc, ◌+◌, ◌≡◌, ◌≢◌, ◌==◌, Bool, true, false, refl, ◌∙◌, ap, sym, if◌then◌else◌, Option,
  some, List, [], ◌∷◌, ◌++◌, arith, Bool-cases, Option-cases, inl, inr, ◌⊎◌,
}
use sysops.Printers.Setup.{
  Act, opens, maps, unmaps, unlinks, starts, kills, start_processes, kill_processes, with_processes,
}

-- What an act makes of the name of the shared memory, of its mapping, of process `q`.
abbrev pub named : Act → Bool → Bool
named opens b = true
named unlinks b = false
named _ b = b

abbrev pub mapped : Act → Bool → Bool
mapped maps b = true
mapped unmaps b = false
mapped _ b = b

abbrev pub running : ℕ → Act → Bool → Bool
running q (starts pid) b = if q == pid then true else b
running q (kills pid) b = if q == pid then false else b
running q _ b = b

unfoldable pub after : (Act → Bool → Bool) → List Act → Bool → Bool
after f [] b = b
after f (a ∷ acts) b = after f acts (f a b)

pub after-append :
    (f : Act → Bool → Bool) (xs ys : List Act) (b : Bool)
    → after f (xs ++ ys) b ≡ after f ys (after f xs b)
unfolding after
after-append f [] ys b = refl
after-append f (x ∷ xs) ys b = after-append f xs ys (f x b)

-- No process has number 0.
abbrev pub Numbered : (ℕ → Option ℕ) → Type 0
Numbered fork = (i pid : ℕ) → fork i ≡ some pid → pid ≢ 0

-- A list of acts that keeps what it is about.
abbrev pub Keeps : (Act → Bool → Bool) → List Act → Type 0
Keeps f acts = (b : Bool) → after f acts b ≡ b

-- The starts and the kills keep what no start and no kill changes.
module _ (f : Act → Bool → Bool) (start : (p : ℕ) (b : Bool) → f (starts p) b ≡ b)
    (kill : (p : ℕ) (b : Bool) → f (kills p) b ≡ b) where
  starts_keep : (fork : ℕ → Option ℕ) (rest i : ℕ) → Keeps f (start_processes fork rest i).0
  unfolding start_processes after
  starts_keep fork zero i b = refl
  starts_keep fork (suc rest) i b = elim (Option-cases (fork i)) [
    | inl e ↦ rw (after, start_processes, e) (starts_keep fork rest (i + 1) b)
    | inr (p, e) ↦ rw (after, start_processes, e) (rw (start p b) (starts_keep fork rest (i + 1) b))
  ]

  kills_keep : (pids : List ℕ) → Keeps f (kill_processes pids)
  unfolding kill_processes after
  kills_keep [] b = refl
  kills_keep (p ∷ pids) b = elim (Bool-cases (p == 0)) [
    | inl e ↦ rw (after, kill_processes, e) (kills_keep pids b)
    | inr e ↦ rw (after, kill_processes, e) (rw (kill p b) (kills_keep pids b))
  ]

  pub processes_keep : (fork : ℕ → Option ℕ) (n : ℕ) → Keeps f (with_processes fork n)
  unfolding with_processes
  processes_keep fork n b =
      after-append f (start_processes fork n 0).0 (kill_processes (start_processes fork n 0).1) b
      ∙ kills_keep (start_processes fork n 0).1 (after f (start_processes fork n 0).0 b)
      ∙ starts_keep fork n 0 b

abbrev pub is_in : ℕ → List ℕ → Bool
is_in q [] = false
is_in q (p ∷ ps) = if q == p then true else is_in q ps

-- A process that is killed later.
abbrev pub WillEnd : ℕ → List ℕ → Type 0
WillEnd q pids = (is_in q pids ≡ true) × (q ≢ 0)

-- What `starts_in` says of the result of the loop that forks.
abbrev StartsIn : ℕ → Bool → List Act × List ℕ → Type 0
StartsIn q b r = after (running q) r.0 b ≡ true → WillEnd q r.1 ⊎ (b ≡ true)

pub is_in_later : (q p : ℕ) (ps : List ℕ) → is_in q ps ≡ true → is_in q (p ∷ ps) ≡ true
is_in_later q p ps h = elim (Bool-cases (q == p)) [
  | inl e ↦ rw (is_in, e) refl
  | inr e ↦ rw (is_in, e) h
]

none_starts :
    (q : ℕ) (b : Bool) (acts : List Act) (pids : List ℕ)
    → StartsIn q b (acts, pids)
    → StartsIn q b (acts, 0 ∷ pids)
none_starts q b acts pids later h = elim (later h) [
  | inl (here, positive) ↦ inl (is_in_later q 0 pids here, positive)
  | inr e ↦ inr e
]

one_starts :
    (q p : ℕ) (b : Bool) (acts : List Act) (pids : List ℕ)
    → p ≢ 0
    → ((c : Bool) → StartsIn q c (acts, pids))
    → StartsIn q b (starts p ∷ acts, p ∷ pids)
unfolding after
one_starts q p b acts pids positive later h = elim (Bool-cases (q == p)) [
  | inl e ↦ let same : q ≡ p = ground arith in inl (rw e refl, ground arith)
  | inr e ↦
      let before : after (running q) acts b ≡ true =
        ap (λ x. after (running q) acts (if x then true else b)) (sym e) ∙ h in
      elim (later b before) [
        | inl (here, some_number) ↦ inl (is_in_later q p pids here, some_number)
        | inr was ↦ inr was
      ]
]

starts_in :
    (fork : ℕ → Option ℕ) (numbered : Numbered fork) (q rest i : ℕ) (b : Bool)
    → StartsIn q b (start_processes fork rest i)
unfolding start_processes after
starts_in fork numbered q zero i b = λ h. inr h
starts_in fork numbered q (suc rest) i b = elim (Option-cases (fork i)) [
  | inl e ↦
      rw (start_processes, e)
        (none_starts q b (start_processes fork rest (i + 1)).0 (start_processes fork rest (i + 1)).1
          (starts_in fork numbered q rest (i + 1) b))
  | inr (p, e) ↦
      rw (start_processes, e)
        (one_starts q p b (start_processes fork rest (i + 1)).0
          (start_processes fork rest (i + 1)).1 (numbered i p e)
          (starts_in fork numbered q rest (i + 1)))
]

pub kills_stop :
    (q : ℕ) (pids : List ℕ) (b : Bool)
    → (b ≡ true → WillEnd q pids)
    → after (running q) (kill_processes pids) b ≡ false
unfolding kill_processes after
kills_stop q [] true h = sym (h refl).0
kills_stop q [] false h = refl
kills_stop q (p ∷ pids) b h = elim (Bool-cases (p == 0)) [
  | inl e ↦
      rw (after, kill_processes, e)
        (kills_stop q pids b (λ was.
          let (here, positive) = h was in
          let other : (q == p) ≡ false = ground arith in
          (ap (λ x. if x then true else is_in q pids) (sym other) ∙ here, positive)))
  | inr e ↦
      rw (after, kill_processes, e)
        (kills_stop q pids (if q == p then false else b) (elim (Bool-cases (q == p)) [
          | inl same ↦ rw same (λ was. ground arith)
          | inr other ↦ rw other (λ was.
              let (here, positive) = h was in
              (ap (λ x. if x then true else is_in q pids) (sym other) ∙ here, positive))
        ]))
]

pub processes_stop :
    (fork : ℕ → Option ℕ) (numbered : Numbered fork) (q n : ℕ)
    → after (running q) (with_processes fork n) false ≡ false
unfolding with_processes
processes_stop fork numbered q n =
    after-append (running q) (start_processes fork n 0).0
      (kill_processes (start_processes fork n 0).1) false
    ∙ kills_stop q (start_processes fork n 0).1
        (after (running q) (start_processes fork n 0).0 false)
        (λ h. elim (starts_in fork numbered q n 0 false h) [ inl w ↦ w | inr f ↦ ground arith ])
