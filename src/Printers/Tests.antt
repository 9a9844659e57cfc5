-- ===== src/Printers/Tests.antt =====
-- A run of one user and one printer of cw08, and the theorems at concrete inputs.
use sysops.Common.{
  total, ◌≤◌, ◌≡◌, refl, Bool, true, inl, inr, ◌⊎◌, List, [], ◌∷◌, ◌++◌, some, length, set,
}
use sysops.Printers.{
  Job, PrintQueue, Process, ready, idle, wants_slot, wants_queue, writing, moving_tail,
  posting_full, wants_job, killed, put, Event, fresh_queue, max_jobs, generate_random_text,
  random_letters, setup_printer_queue,
}
use sysops.Printers.Steps.{
  step, user_step, printer_step, System, Step, Reaches, here, then_step, then_kill, then_fork, puts,
  takes,
}
use sysops.Printers.Ring.{Holds}
use sysops.Printers.Progress.{user_runs, printer_runs}
use sysops.Printers.Runs.{Started, puts-takes, AllWait-Started}

abbrev two : System
two = record { queue = fresh_queue; processes = ready ∷ idle ∷ [] }

two-Started : Started two
unfolding setup_printer_queue
two-Started = record { made = refl; at_start = (inl refl, (inr refl, tt)) }

abbrev letters : Job
letters = 97 ∷ 98 ∷ 0 ∷ []

text_runs : generate_random_text (λ i. i) 3 ≡ letters
unfolding generate_random_text random_letters
text_runs = refl

-- The first process takes a step.
first_moves :
    (k : Bool) (p m : Process) (q r : PrintQueue) (ps : List Process) (es : List Event)
    → step k (λ i. i) p q ≡ some (m, r, es)
    → Step (record { queue = q; processes = p ∷ ps }) es (record { queue = r; processes = m ∷ ps })
first_moves k p m q r ps es e = record {
  before = [];
  after = ps;
  process = p;
  moved = m;
  keep_running = k;
  rand = λ i. i;
  from = refl;
  to = refl;
  moves = e;
}

abbrev user_at : Process → PrintQueue → System
user_at p q = record { queue = q; processes = p ∷ idle ∷ [] }

abbrev claimed : PrintQueue
claimed = record fresh_queue { empty = 9 }

abbrev locked : PrintQueue
locked = record claimed { mutex = 0 }

abbrev stored : PrintQueue
stored = record locked { jobs = set locked.jobs 0 letters }

abbrev advanced : PrintQueue
advanced = record stored { tail = 1 }

-- The user puts its job into the queue.
one_put : Reaches two (put letters ∷ []) (user_at posting_full advanced)
unfolding step user_step printer_step generate_random_text random_letters
one_put =
    then_step [] (put letters ∷ []) (user_at (moving_tail letters) stored)
      (user_at posting_full advanced)
      (then_step [] [] (user_at (writing letters) locked) (user_at (moving_tail letters) stored)
        (then_step [] [] (user_at (wants_queue letters) claimed) (user_at (writing letters) locked)
          (then_step [] [] (user_at (wants_slot letters) fresh_queue)
            (user_at (wants_queue letters) claimed)
            (then_step [] [] two (user_at (wants_slot letters) fresh_queue) here (
              first_moves true ready (wants_slot letters) fresh_queue fresh_queue (idle ∷ []) []
                refl))
            (first_moves true (wants_slot letters) (wants_queue letters) fresh_queue claimed
              (idle ∷ []) [] refl))
          (first_moves true (wants_queue letters) (writing letters) claimed locked (idle ∷ []) []
            refl))
        (first_moves true (writing letters) (moving_tail letters) locked stored (idle ∷ []) []
          refl))
      (first_moves true (moving_tail letters) posting_full stored advanced (idle ∷ [])
        (put letters ∷ []) refl)

puts-takes_example :
    (waiting : List Job) × (puts (put letters ∷ []) ≡ takes (put letters ∷ []) ++ waiting)
    × Holds advanced.jobs 0 waiting
    × (length waiting ≤ max_jobs)
puts-takes_example =
    puts-takes two (user_at posting_full advanced) (put letters ∷ []) two-Started one_put

abbrev lone : System
lone = record { queue = fresh_queue; processes = idle ∷ [] }

abbrev lone_waits : System
lone_waits = record { queue = fresh_queue; processes = wants_job ∷ [] }

lone-Started : Started lone
unfolding setup_printer_queue
lone-Started = record { made = refl; at_start = (inr refl, tt) }

lone_moves : Reaches lone [] lone_waits
unfolding step user_step printer_step
lone_moves =
    then_step [] [] lone lone_waits here
      (first_moves true idle wants_job fresh_queue fresh_queue [] [] refl)

-- The lone printer is killed there, and a user is started.
abbrev user_left : System
user_left = record { queue = fresh_queue; processes = ready ∷ killed wants_job ∷ [] }

killed_and_started : Reaches lone [] user_left
killed_and_started =
    then_fork [] (record { queue = fresh_queue; processes = killed wants_job ∷ [] }) user_left
      (then_kill [] lone_waits (record { queue = fresh_queue; processes = killed wants_job ∷ [] })
        lone_moves
        (record {
          before = [];
          after = [];
          process = wants_job;
          from = refl;
          to = refl;
          queue = refl;
        }))
      (record { process = ready; starts = refl; to = refl; queue = refl })

AllWait-Started_example :
    (total user_runs (wants_job ∷ []) ≡ 0) ⊎ (total printer_runs (wants_job ∷ []) ≡ 0)
unfolding step user_step printer_step
AllWait-Started_example =
    AllWait-Started lone lone_waits [] lone-Started lone_moves (refl, tt) (tt, tt)
