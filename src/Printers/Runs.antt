-- ===== src/Printers/Runs.antt =====
-- What holds of the printers of cw08 in every run from the start.
use sysops.Common.{
  total, ℕ, ◌+◌, ◌≤◌, ◌≡◌, refl, ◌∙◌, ap, Bool, true, false, inl, inr, sym, Option, List, [], ◌∷◌,
  ◌++◌, none, some, ◌⊎◌, length, arith,
}
use mathlib.Core.Path.{subst}
use sysops.Printers.{
  Job, PrintQueue, Process, ready, idle, Event, max_jobs, SemCall, sem_init, sem_destroy,
  setup_printer_queue, fresh_queue, Semaphore, mutex_sem, empty_sem, full_sem,
}
use sysops.Printers.Steps.{System, Reaches, puts, takes}
use sysops.Printers.Weights.{has_mutex, has_job, has_slot, Knows, AllKnow}
use sysops.Printers.Ring.{Holds}
use sysops.Printers.Invariant.{Inv}
use sysops.Printers.Order.{Reaches-Inv}
use sysops.Printers.Progress.{AllWait, AllHarmless, user_runs, printer_runs, AllWait-stopped}

-- Users and printers in front of their loops.
abbrev pub AtStart : List Process → Type 0
AtStart [] = Unit {0}
AtStart (p ∷ ps) = ((p ≡ ready) ⊎ (p ≡ idle)) × AtStart ps

-- The system that `main` starts, with the queue that `setup_printer_queue` made.
pub record Started (s : System) : Type 0 where
  pub made : (setup_printer_queue true true true).1 ≡ some s.queue
  pub at_start : AtStart s.processes

total-AtStart :
    (w : Process → ℕ) (ps : List Process) → w ready ≡ 0 → w idle ≡ 0 → AtStart ps → total w ps ≡ 0
unfolding total
total-AtStart w [] r i v = refl
total-AtStart w (p ∷ ps) r i v =
    let here : w p ≡ 0 = elim v.0 [ inl e ↦ ap w e ∙ r | inr e ↦ ap w e ∙ i ] in
    omega (arith, here, total-AtStart w ps r i v.1)

AllKnow-AtStart : (q : PrintQueue) (ps : List Process) → AtStart ps → AllKnow q ps
AllKnow-AtStart q [] v = tt
AllKnow-AtStart q (p ∷ ps) v = (
  elim v.0 [ inl e ↦ subst (Knows q) (sym e) tt | inr e ↦ subst (Knows q) (sym e) tt ],
  AllKnow-AtStart q ps v.1,
)

start-Inv : (s : System) → Started s → Inv s.processes s.queue []
unfolding setup_printer_queue puts takes
start-Inv s v =
    subst (λ q. Inv s.processes q []) made
      (record {
        waiting = [];
        order = refl;
        lock = omega (arith, total-AtStart has_mutex s.processes refl refl v.at_start);
        jobs_posted = omega (arith, total-AtStart has_job s.processes refl refl v.at_start);
        slots_free = omega (arith, total-AtStart has_slot s.processes refl refl v.at_start);
        size = refl;
        head_inside = omega arith;
        tail_behind = refl;
        ring = tt;
        know = AllKnow-AtStart fresh_queue s.processes v.at_start;
      })
  where
    made : fresh_queue ≡ s.queue
    made = ap (λ o. elim o [ none ↦ fresh_queue | some q ↦ q ]) v.made

-- For any number of users and printers and any order of their steps up to the first `sem_destroy`,
-- also when some are killed and others are started in between: the jobs that went into the queue
-- are those that came out, in the same order, and then those that stand in its slots from `head`
-- on; and these are at most as many as there are slots. So the queue loses no job, and none is
-- taken twice, overtaken or overwritten.
pub puts-takes :
    (s t : System) (seen : List Event)
    → Started s
    → Reaches s seen t
    → (waiting : List Job) × (puts seen ≡ takes seen ++ waiting)
      × Holds t.queue.jobs t.queue.head waiting
      × (length waiting ≤ max_jobs)
puts-takes s t seen v r =
    let i = Reaches-Inv s t seen (start-Inv s v) r in
    (i.waiting, i.order, i.ring, omega (arith, i.slots_free))

-- In every run, the value of the mutex and the number of processes between its `sem_wait` and its
-- `sem_post` make one: never two processes are inside at once.
total-has_mutex :
    (s t : System) (seen : List Event)
    → Started s
    → Reaches s seen t
    → t.queue.mutex + total has_mutex t.processes ≡ 1
total-has_mutex s t seen v r = (Reaches-Inv s t seen (start-Inv s v) r).lock

-- There is no deadlock but by a kill. When, behind any run up to the first `sem_destroy`, no
-- process that was killed held the mutex, a job or a slot, and not one process can take a step of
-- its loop while `keep_running` is set, then all users or all printers have left their loops or
-- were killed.
pub AllWait-Started :
    (s t : System) (seen : List Event)
    → Started s
    → Reaches s seen t
    → AllWait t.queue t.processes
    → AllHarmless t.processes
    → (total user_runs t.processes ≡ 0) ⊎ (total printer_runs t.processes ≡ 0)
AllWait-Started s t seen v r w h =
    AllWait-stopped t.processes t.queue seen (Reaches-Inv s t seen (start-Inv s v) r) w h

-- The semaphores whose `sem_init` worked, and those that were destroyed.
abbrev pub initialised : List SemCall → List Semaphore
initialised [] = []
initialised (sem_init k true ∷ cs) = k ∷ initialised cs
initialised (sem_init k false ∷ cs) = initialised cs
initialised (sem_destroy k ∷ cs) = initialised cs

abbrev pub destroyed : List SemCall → List Semaphore
destroyed [] = []
destroyed (sem_init k b ∷ cs) = destroyed cs
destroyed (sem_destroy k ∷ cs) = k ∷ destroyed cs

abbrev pub CleansUp : List SemCall × Option PrintQueue → Type 0
CleansUp (calls, none) = destroyed calls ≡ initialised calls
CleansUp (calls, some q) =
    (initialised calls ≡ mutex_sem ∷ empty_sem ∷ full_sem ∷ []) × (destroyed calls ≡ [])

-- When `setup_printer_queue` fails it has destroyed, in order, the semaphores that it had
-- initialised; when it succeeds all three are initialised and none is destroyed.
setup_printer_queue_lem : (a b c : Bool) → CleansUp (setup_printer_queue a b c)
unfolding setup_printer_queue
setup_printer_queue_lem false b c = refl
setup_printer_queue_lem true false c = refl
setup_printer_queue_lem true true false = refl
setup_printer_queue_lem true true true = (refl, refl)
