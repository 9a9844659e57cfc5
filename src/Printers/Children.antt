-- ===== src/Printers/Children.antt =====
-- What a process of cw08/printers_server.c or cw08/users_client.c does when its loop has ended: it
-- does not exit, but goes on in the loop of `main` that forked it.
use sysops.Common.{
  ℕ, zero, suc, ◌+◌, ◌-◌, ◌<◌, ◌≡◌, ◌≢◌, ◌==◌, Bool, true, false, refl, ◌∙◌, ap, sym, if◌then◌else◌,
  Option, some, List, [], ◌∷◌, ◌++◌, arith, Bool-cases, Option-cases, inl, inr,
}
use sysops.Printers.{Semaphore, mutex_sem, empty_sem, full_sem, sem_destroy, sem_init}
use sysops.Printers.Setup.{
  Act, unmaps, unlinks, on_semaphore, clean_queue, start_processes, kill_processes,
}
use sysops.Printers.Killing.{named, running, after, after-append, is_in, is_in_later, kills_stop}

-- `main` in the process of round `i` of `n`, from the return of `printer_process` or `user_process`
-- to the end of the loop that kills. `parent` is what `fork` gave in the rounds before, whose
-- entries of `pids` the process has a copy of; its own entry is still 0. `child` is what `fork`
-- gives in the rounds that the process goes through itself.
unfoldable pub goes_on : (ℕ → Option ℕ) → (ℕ → Option ℕ) → ℕ → ℕ → List Act
unfolding start_processes kill_processes
goes_on parent child n i =
    let (acts, pids) = start_processes child (n - (i + 1)) (i + 1) in
    acts ++ kill_processes ((start_processes parent i 0).1 ++ (0 ∷ pids))

-- A printer goes on to the end of `main`.
unfoldable pub printer_goes_on : (ℕ → Option ℕ) → (ℕ → Option ℕ) → ℕ → ℕ → List Act
unfolding goes_on
printer_goes_on parent child n i =
    goes_on parent child n i ++ (clean_queue ++ (unmaps ∷ unlinks ∷ []))

-- And so does a user.
unfoldable pub user_goes_on : (ℕ → Option ℕ) → (ℕ → Option ℕ) → ℕ → ℕ → List Act
unfolding goes_on
user_goes_on parent child n i = goes_on parent child n i ++ (unmaps ∷ [])

-- What an act makes of a semaphore: whether it can be used.
abbrev pub usable : Semaphore → Act → Bool → Bool
usable mutex_sem (on_semaphore (sem_init mutex_sem b)) c = b
usable mutex_sem (on_semaphore (sem_destroy mutex_sem)) c = false
usable empty_sem (on_semaphore (sem_init empty_sem b)) c = b
usable empty_sem (on_semaphore (sem_destroy empty_sem)) c = false
usable full_sem (on_semaphore (sem_init full_sem b)) c = b
usable full_sem (on_semaphore (sem_destroy full_sem)) c = false
usable _ _ c = c

is_in-started :
    (fork : ℕ → Option ℕ) (rest i j pid : ℕ)
    → fork (i + j) ≡ some pid
    → j < rest
    → is_in pid (start_processes fork rest i).1 ≡ true
unfolding start_processes
is_in-started fork zero i j pid e h = absurd (omega (arith, h))
is_in-started fork (suc rest) i zero pid e h =
    let here : fork i ≡ some pid = ap fork (ground arith) ∙ e in
    let same : (pid == pid) ≡ true = ground arith in
    rw (start_processes, here) (rw (is_in, same) refl)
is_in-started fork (suc rest) i (suc j) pid e h =
    let later : is_in pid (start_processes fork rest (i + 1)).1 ≡ true =
      is_in-started fork rest (i + 1) j pid (ap fork (ground arith) ∙ e) (omega (arith, h)) in
    elim (Option-cases (fork i)) [
      | inl none_here ↦
          rw (start_processes, none_here)
            (is_in_later pid 0 (start_processes fork rest (i + 1)).1 later)
      | inr (p, some_here) ↦
          rw (start_processes, some_here)
            (is_in_later pid p (start_processes fork rest (i + 1)).1 later)
    ]

is_in-append : (q : ℕ) (xs ys : List ℕ) → is_in q xs ≡ true → is_in q (xs ++ ys) ≡ true
is_in-append q [] ys h = absurd (ground arith)
is_in-append q (x ∷ xs) ys h = elim (Bool-cases (q == x)) [
  | inl e ↦ rw (is_in, e) refl
  | inr e ↦
      let there : is_in q xs ≡ true = ap (λ b. if b then true else is_in q xs) (sym e) ∙ h in
      is_in_later q x (xs ++ ys) (is_in-append q xs ys there)
]

-- Each process of an earlier round is killed.
pub goes_on-kills :
    (parent child : ℕ → Option ℕ) (n i j pid : ℕ) (b : Bool)
    → j < i
    → parent j ≡ some pid
    → pid ≢ 0
    → after (running pid) (goes_on parent child n i) b ≡ false
unfolding goes_on
goes_on-kills parent child n i j pid b h e positive =
    let pids = (start_processes parent i 0).1 in
    let own = start_processes child (n - (i + 1)) (i + 1) in
    let here : is_in pid pids ≡ true =
      is_in-started parent i 0 j pid (ap parent (ground arith) ∙ e) h in
    after-append (running pid) own.0 (kill_processes (pids ++ (0 ∷ own.1))) b
    ∙ kills_stop pid (pids ++ (0 ∷ own.1)) (after (running pid) own.0 b)
        (λ was. (is_in-append pid pids (0 ∷ own.1) here, positive))

-- A printer of round `i` whose loop has ended, when process `pid`, a number other than 0, was
-- started in an earlier round and runs, while the memory has its name and the semaphores can be
-- used: the printer kills that process, takes the name of the memory away, and leaves none of the
-- semaphores that the server and the users share usable.
pub printer_goes_on-destroys :
    (parent child : ℕ → Option ℕ) (n i j pid : ℕ)
    → j < i
    → parent j ≡ some pid
    → pid ≢ 0
    → (after (running pid) (printer_goes_on parent child n i) true ≡ false)
      × (after named (printer_goes_on parent child n i) true ≡ false)
      × ((k : Semaphore) → after (usable k) (printer_goes_on parent child n i) true ≡ false)
unfolding printer_goes_on after
printer_goes_on-destroys parent child n i j pid h e positive = (
  after-append (running pid) acts last true
      ∙ goes_on-kills parent child n i j pid true h e positive,
  after-append named acts last true,
  λ k. after-append (usable k) acts last true ∙ destroyed k (after (usable k) acts true),
)
  where
    acts : List Act
    acts = goes_on parent child n i

    last : List Act
    last = clean_queue ++ (unmaps ∷ unlinks ∷ [])

    destroyed : (k : Semaphore) (b : Bool) → after (usable k) last b ≡ false
    destroyed mutex_sem b = refl
    destroyed empty_sem b = refl
    destroyed full_sem b = refl

-- A user of round `i` whose loop has ended kills each process of an earlier round too.
user_goes_on-kills :
    (parent child : ℕ → Option ℕ) (n i j pid : ℕ)
    → j < i
    → parent j ≡ some pid
    → pid ≢ 0
    → after (running pid) (user_goes_on parent child n i) true ≡ false
unfolding user_goes_on after
user_goes_on-kills parent child n i j pid h e positive =
    after-append (running pid) (goes_on parent child n i) (unmaps ∷ []) true
    ∙ goes_on-kills parent child n i j pid true h e positive
