-- ===== src/Printers/Moves.antt =====
-- The steps of the processes of cw08 keep the invariant: those on the semaphores, the write of a
-- job, and the moves of the two ends of the queue.
use sysops.Common.{
  total-at, total-swap, ◌+◌, ◌%◌, ◌<◌, ◌≡◌, refl, ◌∙◌, ap, sym, List, [], ◌∷◌, ◌++◌, length,
  length-set, set, arith,
}
use sysops.Printers.{
  Job, PrintQueue, max_jobs, Process, posting_full, writing, moving_tail, moving_head, unlocking,
  Event, put, took,
}
use mathlib.Core.Path.{subst}
use sysops.Printers.Steps.{puts, takes}
use sysops.Printers.Weights.{
  has_mutex, has_job, has_slot, Knows, AllKnow-at, same-AllKnow, alone-AllKnow,
}
use sysops.Printers.Ring.{Holds, Holds-set, Holds-append, job_at-set_same}
use sysops.Printers.Invariant.{Inv}
use sysops.Printers.Seen.{order_same, order_put, order_took, length-append_one}

module _ (before after : List Process) (seen : List Event) where
  -- A step that neither moves an end of the queue nor writes a job.
  pub kept :
      (p m : Process) (q r : PrintQueue) (more : List Event)
      → Inv (before ++ (p ∷ after)) q seen
      → puts more ≡ []
      → takes more ≡ []
      → r.mutex + has_mutex m ≡ q.mutex + has_mutex p
      → r.full + has_job m ≡ q.full + has_job p
      → r.empty + has_slot m ≡ q.empty + has_slot p
      → q.jobs ≡ r.jobs
      → q.head ≡ r.head
      → q.tail ≡ r.tail
      → Knows r m
      → Inv (before ++ (m ∷ after)) r (seen ++ more)
  kept p m q r more v np nt x f e j h t k = record {
    waiting = v.waiting;
    order = order_same seen more v.waiting v.order np nt;
    lock = omega (arith, v.lock, total-swap has_mutex before after p m);
    jobs_posted = omega (arith, v.jobs_posted, total-swap has_job before after p m);
    slots_free = omega (arith, v.slots_free, total-swap has_slot before after p m);
    size = ap length (sym j) ∙ v.size;
    head_inside = omega (arith, v.head_inside, h);
    tail_behind = omega (arith, v.tail_behind, h, t);
    ring = subst (λ a. Holds a r.head v.waiting) j (subst (λ a. Holds q.jobs a v.waiting) h v.ring);
    know = same-AllKnow q r before after p m j h t k v.know;
  }

  -- The step of a user that writes its job.
  pub written :
      (q : PrintQueue) (buf : Job)
      → Inv (before ++ (writing buf ∷ after)) q seen
      → Inv
          (before ++ (moving_tail buf ∷ after))
          (record q { jobs = set q.jobs q.tail buf })
          (seen ++ [])
  unfolding puts takes
  written q buf v = record {
    waiting = v.waiting;
    order = order_same seen [] v.waiting v.order refl refl;
    lock = omega (arith, v.lock, total-swap has_mutex before after (writing buf) (moving_tail buf));
    jobs_posted =
        omega
          (arith, v.jobs_posted, total-swap has_job before after (writing buf) (moving_tail buf));
    slots_free =
        omega
          (arith, v.slots_free, total-swap has_slot before after (writing buf) (moving_tail buf));
    size = length-set q.jobs q.tail buf ∙ v.size;
    head_inside = v.head_inside;
    tail_behind = v.tail_behind;
    ring =
        Holds-set q.jobs v.waiting q.head (length v.waiting) q.tail buf v.ring v.head_inside
          (omega arith) room_left v.tail_behind;
    know =
        alone-AllKnow (record q { jobs = set q.jobs q.tail buf }) before after (moving_tail buf)
          (omega (arith, v.lock, total-at has_mutex before after (writing buf)))
          (omega (arith, v.lock, total-at has_mutex before after (writing buf)))
          (job_at-set_same q.jobs q.tail buf (omega (arith, v.size, v.tail_behind)));
  }
    where
      room_left : length v.waiting < max_jobs
      room_left = omega (arith, v.slots_free, total-at has_slot before after (writing buf))

  -- The step of a user that moves `tail`.
  pub put_in :
      (q : PrintQueue) (buf : Job)
      → Inv (before ++ (moving_tail buf ∷ after)) q seen
      → Inv
          (before ++ (posting_full ∷ after))
          (record q { tail = (q.tail + 1) % max_jobs })
          (seen ++ (put buf ∷ []))
  put_in q buf v = record {
    waiting = v.waiting ++ (buf ∷ []);
    order = order_put seen v.waiting buf v.order;
    lock = omega (arith, v.lock, total-swap has_mutex before after (moving_tail buf) posting_full);
    jobs_posted = omega (
      arith,
      v.jobs_posted,
      length-append_one v.waiting buf,
      total-swap has_job before after (moving_tail buf) posting_full,
    );
    slots_free = omega (
      arith,
      v.slots_free,
      length-append_one v.waiting buf,
      total-swap has_slot before after (moving_tail buf) posting_full,
    );
    size = v.size;
    head_inside = v.head_inside;
    tail_behind = omega (arith, v.tail_behind, length-append_one v.waiting buf);
    ring =
        Holds-append q.jobs v.waiting q.head q.tail buf v.ring v.head_inside v.tail_behind
          (AllKnow-at q before after (moving_tail buf) v.know);
    know =
        alone-AllKnow (record q { tail = (q.tail + 1) % max_jobs }) before after posting_full
          (omega (arith, v.lock, total-at has_mutex before after (moving_tail buf)))
          (omega (arith, v.lock, total-at has_mutex before after (moving_tail buf))) tt;
  }

  -- The step of a printer that moves `head`, with the first waiting job split off.
  pub taken_from :
      (q : PrintQueue) (job : Job) (v : Inv (before ++ (moving_head job ∷ after)) q seen)
      (ws : List Job)
      → v.waiting ≡ ws
      → Inv
          (before ++ (unlocking job ∷ after))
          (record q { head = (q.head + 1) % max_jobs })
          (seen ++ (took job ∷ []))
  taken_from q job v [] e =
      absurd
        (omega (arith, v.jobs_posted, ap length e, total-at has_job before after (moving_head job)))
  taken_from q job v (w ∷ ws) e = record {
    waiting = ws;
    order =
        order_took seen ws job (v.order ∙ ap (λ r. takes seen ++ r) (e ∙ ap (λ r. r ∷ ws) same));
    lock =
        omega (arith, v.lock, total-swap has_mutex before after (moving_head job) (unlocking job));
    jobs_posted = omega (
      arith,
      v.jobs_posted,
      ap length e,
      total-swap has_job before after (moving_head job) (unlocking job),
    );
    slots_free = omega (
      arith,
      v.slots_free,
      ap length e,
      total-swap has_slot before after (moving_head job) (unlocking job),
    );
    size = v.size;
    head_inside = omega arith;
    tail_behind = omega (arith, v.tail_behind, ap length e);
    ring = held.1;
    know =
        alone-AllKnow (record q { head = (q.head + 1) % max_jobs }) before after (unlocking job)
          (omega (arith, v.lock, total-at has_mutex before after (moving_head job)))
          (omega (arith, v.lock, total-at has_mutex before after (moving_head job))) tt;
  }
    where
      held : Holds q.jobs q.head (w ∷ ws)
      held = subst (Holds q.jobs q.head) e v.ring

      same : w ≡ job
      same = sym held.0 ∙ AllKnow-at q before after (moving_head job) v.know
