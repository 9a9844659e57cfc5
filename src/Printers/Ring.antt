-- ===== src/Printers/Ring.antt =====
-- The slots of the circular queue of cw08 that hold waiting jobs.
use sysops.Common.{
  ℕ, zero, suc, ◌+◌, ◌%◌, ◌≤◌, ◌<◌, ◌≡◌, ◌≢◌, refl, ◌∙◌, List, [], ◌∷◌, ◌++◌, length, set, ap,
  arith,
}
use sysops.Printers.{Job, job_at, max_jobs}

pub job_at-set_other :
    (jobs : List Job) (k h : ℕ) (b : Job) → h ≢ k → job_at (set jobs k b) h ≡ job_at jobs h
job_at-set_other [] k h b ne = refl
job_at-set_other (x ∷ xs) zero zero b ne = absurd (ne refl)
job_at-set_other (x ∷ xs) zero (suc h) b ne = refl
job_at-set_other (x ∷ xs) (suc k) zero b ne = refl
job_at-set_other (x ∷ xs) (suc k) (suc h) b ne = job_at-set_other xs k h b (λ e. ne (ap suc e))

pub job_at-set_same :
    (jobs : List Job) (k : ℕ) (b : Job) → k < length jobs → job_at (set jobs k b) k ≡ b
job_at-set_same [] k b l = absurd (omega arith)
job_at-set_same (x ∷ xs) zero b l = refl
job_at-set_same (x ∷ xs) (suc k) b l = job_at-set_same xs k b (omega arith)

abbrev pub next_slot : ℕ → ℕ
next_slot k = (k + 1) % max_jobs

-- From slot `h` on, the slots hold the jobs `ws`.
abbrev pub Holds : List Job → ℕ → List Job → Type 0
Holds jobs h [] = Unit {0}
Holds jobs h (w ∷ ws) = (job_at jobs h ≡ w) × Holds jobs (next_slot h) ws

-- A write to a slot behind the waiting jobs overwrites none of them.
pub Holds-set :
    (jobs ws : List Job) (h d k : ℕ) (b : Job)
    → Holds jobs h ws
    → h < max_jobs
    → length ws ≤ d
    → d < max_jobs
    → k ≡ (h + d) % max_jobs
    → Holds (set jobs k b) h ws
Holds-set jobs [] h d k b v l w m e = tt
Holds-set jobs (x ∷ ws) h zero k b v l w m e = absurd (omega arith)
Holds-set jobs (x ∷ ws) h (suc d) k b v l w m e = (
  job_at-set_other jobs k h b (λ same. absurd (omega arith)) ∙ v.0,
  Holds-set jobs ws (next_slot h) d k b v.1 (omega arith) (omega arith) (omega arith) (omega arith),
)

-- A job in the slot behind the waiting jobs is one more of them.
pub Holds-append :
    (jobs ws : List Job) (h k : ℕ) (b : Job)
    → Holds jobs h ws
    → h < max_jobs
    → k ≡ (h + length ws) % max_jobs
    → job_at jobs k ≡ b
    → Holds jobs h (ws ++ (b ∷ []))
Holds-append jobs [] h k b v l e is = (ap (job_at jobs) (omega arith) ∙ is, tt)
Holds-append jobs (x ∷ ws) h k b v l e is =
    (v.0, Holds-append jobs ws (next_slot h) k b v.1 (omega arith) (omega arith) is)
