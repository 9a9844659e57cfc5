-- ===== src/Printers/Release.antt =====
-- What is left of the shared memory and of the processes when the main functions of cw08 end.
use sysops.Common.{
  ℕ, ◌≡◌, Bool, true, false, refl, ◌∙◌, ap, if◌then◌else◌, Option, none, some, List, [], ◌∷◌, ◌++◌,
  ℤ, is_positive, rounds_of, Bool-cases, inl, inr,
}
use sysops.Printers.{SemCall, setup_printer_queue, PrintQueue}
use sysops.Printers.Setup.{
  Act, opens, maps, unmaps, unlinks, on_semaphore, Calls, on_semaphores, clean_queue,
  with_processes, serve_queue, is_number_of_printers, server_main, users_main,
}
use sysops.Printers.Killing.{
  named, mapped, running, after, after-append, Numbered, Keeps, processes_keep, processes_stop,
}

-- The shared memory has no name and is not mapped, and no process runs.
pub record Released (acts : List Act) : Type 0 where
  pub no_name : after named acts false ≡ false
  pub no_mapping : after mapped acts false ≡ false
  pub no_process : (q : ℕ) → after (running q) acts false ≡ false

semaphores_keep :
    (f : Act → Bool → Bool)
    → ((c : SemCall) (b : Bool) → f (on_semaphore c) b ≡ b)
    → (cs : List SemCall) → Keeps f (on_semaphores cs)
unfolding after
semaphores_keep f keep [] b = refl
semaphores_keep f keep (c ∷ cs) b =
    ap (after f (on_semaphores cs)) (keep c b) ∙ semaphores_keep f keep cs b

queue_stops :
    (fork : ℕ → Option ℕ) (numbered : Numbered fork) (q n : ℕ) (o : Option PrintQueue)
    → after (running q) (elim o [ none ↦ [] | some queue ↦ with_processes fork n ]) false ≡ false
unfolding after
queue_stops fork numbered q n none = refl
queue_stops fork numbered q n (some queue) = processes_stop fork numbered q n

-- Behind `mmap` the server removes the name, the mapping and the processes.
serve_queue-Released :
    (c : Calls) (n : ℕ) → Numbered c.fork → Released (opens ∷ maps ∷ serve_queue c n)
unfolding serve_queue after
serve_queue-Released c n numbered = record {
  no_name = ends named true (λ x. refl);
  no_mapping = ends mapped true (λ x. refl);
  no_process = λ q.
      after-append (running q) sems (middle ++ (clean_queue ++ (unmaps ∷ unlinks ∷ []))) false
      ∙ ap (after (running q) (middle ++ (clean_queue ++ (unmaps ∷ unlinks ∷ []))))
          (semaphores_keep (running q) (λ s b. refl) calls.0 false)
      ∙ after-append (running q) middle (clean_queue ++ (unmaps ∷ unlinks ∷ [])) false
      ∙ queue_stops c.fork numbered q n calls.1;
}
  where
    calls : List SemCall × Option PrintQueue
    calls = setup_printer_queue c.mutex_set c.empty_set c.full_set

    sems : List Act
    sems = on_semaphores calls.0

    middle : List Act
    middle = elim calls.1 [ none ↦ [] | some queue ↦ with_processes c.fork n ]

    ends :
        (f : Act → Bool → Bool) (b : Bool)
        → ((x : Bool) → after f (clean_queue ++ (unmaps ∷ unlinks ∷ [])) x ≡ false)
        → after f (sems ++ (middle ++ (clean_queue ++ (unmaps ∷ unlinks ∷ [])))) b ≡ false
    ends f b last =
        after-append f sems (middle ++ (clean_queue ++ (unmaps ∷ unlinks ∷ []))) b
        ∙ after-append f middle (clean_queue ++ (unmaps ∷ unlinks ∷ [])) (after f sems b)
        ∙ last (after f middle (after f sems b))

nothing-Released : Released []
unfolding after
nothing-Released = record { no_name = refl; no_mapping = refl; no_process = λ q. refl }

only_name-Released : Released (opens ∷ unlinks ∷ [])
unfolding after
only_name-Released = record { no_name = refl; no_mapping = refl; no_process = λ q. refl }

opened-Released :
    (c : Calls) (n : ℕ)
    → Numbered c.fork
    → Released (
        opens
        ∷ (if c.truncated
            then (if c.mapped then maps ∷ serve_queue c n else unlinks ∷ [])
            else unlinks ∷ []))
opened-Released c n numbered = elim (Bool-cases c.truncated) [
  | inl e ↦ elim (Bool-cases c.mapped) [
    | inl m ↦ simp (e, m) (serve_queue-Released c n numbered)
    | inr m ↦ rw (e, m) only_name-Released
  ]
  | inr e ↦ rw e only_name-Released
]

-- Whatever the calls give, when no process has number 0: at the end of `main` of the server the
-- shared memory has no name and is not mapped, and each process that it started is killed.
pub server_main-Released : (n : Option ℤ) (c : Calls) → Numbered c.fork → Released (server_main n c)
unfolding server_main
server_main-Released none c numbered = nothing-Released
server_main-Released (some n) c numbered = elim (Bool-cases (is_number_of_printers n)) [
  | inl e ↦ elim (Bool-cases c.opened) [
    | inl o ↦ rw (e, o) (opened-Released c (rounds_of n) numbered)
    | inr o ↦ rw (e, o) nothing-Released
  ]
  | inr e ↦ rw e nothing-Released
]

-- The users, when their arguments are right and the shared memory of the server is there: at the
-- end it is not mapped, each process that they started is killed, and its name is gone exactly
-- when `mmap` failed.
users_main-named :
    (n : ℤ) (c : Calls)
    → Numbered c.fork
    → is_positive n ≡ true
    → c.opened ≡ true
    → (after named (users_main (some n) c).0 true ≡ c.mapped)
      × (after mapped (users_main (some n) c).0 false ≡ false)
      × ((q : ℕ) → after (running q) (users_main (some n) c).0 false ≡ false)
unfolding users_main after
users_main-named n c numbered positive o = elim (Bool-cases c.mapped) [
  | inl m ↦
      let acts = with_processes c.fork (rounds_of n) in
      rw (positive, o, m)
        (
          after-append named acts (unmaps ∷ []) true
              ∙ processes_keep named (λ p b. refl) (λ p b. refl) c.fork (rounds_of n) true,
          after-append mapped acts (unmaps ∷ []) true,
          λ q.
              after-append (running q) acts (unmaps ∷ []) false
              ∙ processes_stop c.fork numbered q (rounds_of n),
        )
  | inr m ↦ rw (positive, o, m) (refl, refl, λ q. refl)
]
