-- ===== src/Printers/Weights.antt =====
-- What the processes of cw08 hold at each point of their loops, counted over all of them.
use sysops.Common.{total, ℕ, ◌≡◌, List, [], ◌∷◌, ◌++◌, arith}
use sysops.Printers.{
  PrintQueue, job_at, Process, posting_full, posting_mutex, wants_queue, writing, moving_tail,
  got_job, reading, moving_head, unlocking, freeing, killed,
}

-- Between `sem_wait(&queue->mutex)` and `sem_post(&queue->mutex)`.
abbrev pub has_mutex : Process → ℕ
has_mutex (writing buf) = 1
has_mutex (moving_tail buf) = 1
has_mutex posting_full = 1
has_mutex posting_mutex = 1
has_mutex reading = 1
has_mutex (moving_head job) = 1
has_mutex (unlocking job) = 1
has_mutex (killed p) = has_mutex p
has_mutex _ = 0

-- A waiting job that `full` does not count: not posted yet, or a printer is about to take it.
abbrev pub has_job : Process → ℕ
has_job posting_full = 1
has_job got_job = 1
has_job reading = 1
has_job (moving_head job) = 1
has_job (killed p) = has_job p
has_job _ = 0

-- A slot without a waiting job that `empty` does not count.
abbrev pub has_slot : Process → ℕ
has_slot (wants_queue buf) = 1
has_slot (writing buf) = 1
has_slot (moving_tail buf) = 1
has_slot (unlocking job) = 1
has_slot (freeing job) = 1
has_slot (killed p) = has_slot p
has_slot _ = 0

-- What a process that is about to move an end of the queue knows of the slot there.
abbrev pub Knows : PrintQueue → Process → Type 0
Knows q (moving_tail buf) = job_at q.jobs q.tail ≡ buf
Knows q (moving_head job) = job_at q.jobs q.head ≡ job
Knows q (killed p) = Knows q p
Knows q _ = Unit {0}

abbrev pub AllKnow : PrintQueue → List Process → Type 0
AllKnow q [] = Unit {0}
AllKnow q (p ∷ ps) = Knows q p × AllKnow q ps

pub AllKnow-at :
    (q : PrintQueue) (before after : List Process) (p : Process)
    → AllKnow q (before ++ (p ∷ after))
    → Knows q p
AllKnow-at q [] after p v = v.0
AllKnow-at q (x ∷ before) after p v = AllKnow-at q before after p v.1

-- A step that leaves the slots and the ends of the queue alone.
same-Knows :
    (q r : PrintQueue) (p : Process)
    → q.jobs ≡ r.jobs
    → q.head ≡ r.head
    → q.tail ≡ r.tail
    → Knows q p
    → Knows r p
same-Knows q r (moving_tail buf) j h t v = cc
same-Knows q r (moving_head buf) j h t v = cc
same-Knows q r (killed p) j h t v = same-Knows q r p j h t v
same-Knows q r _ j h t v = tt

pub same-AllKnow :
    (q r : PrintQueue) (before after : List Process) (p m : Process)
    → q.jobs ≡ r.jobs
    → q.head ≡ r.head
    → q.tail ≡ r.tail
    → Knows r m
    → AllKnow q (before ++ (p ∷ after))
    → AllKnow r (before ++ (m ∷ after))
same-AllKnow q r [] [] p m j h t k v = (k, tt)
same-AllKnow q r [] (x ∷ after) p m j h t k v =
    (k, same-AllKnow q r [] after x x j h t (same-Knows q r x j h t v.1.0) v.1)
same-AllKnow q r (x ∷ before) after p m j h t k v =
    (same-Knows q r x j h t v.0, same-AllKnow q r before after p m j h t k v.1)

no_mutex-Knows : (r : PrintQueue) (p : Process) → has_mutex p ≡ 0 → Knows r p
no_mutex-Knows r (moving_tail buf) e = absurd (omega arith)
no_mutex-Knows r (moving_head job) e = absurd (omega arith)
no_mutex-Knows r (killed p) e = no_mutex-Knows r p e
no_mutex-Knows r _ e = tt

no_mutex-AllKnow : (r : PrintQueue) (ps : List Process) → total has_mutex ps ≡ 0 → AllKnow r ps
unfolding total
no_mutex-AllKnow r [] e = tt
no_mutex-AllKnow r (p ∷ ps) e =
    (no_mutex-Knows r p (omega arith), no_mutex-AllKnow r ps (omega arith))

-- A process that has the mutex may change the queue as it likes: no other process knows anything.
pub alone-AllKnow :
    (r : PrintQueue) (before after : List Process) (m : Process)
    → total has_mutex before ≡ 0
    → total has_mutex after ≡ 0
    → Knows r m
    → AllKnow r (before ++ (m ∷ after))
unfolding total
alone-AllKnow r [] after m b a k = (k, no_mutex-AllKnow r after a)
alone-AllKnow r (x ∷ before) after m b a k =
    (no_mutex-Knows r x (omega arith), alone-AllKnow r before after m (omega arith) a k)
