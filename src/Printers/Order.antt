-- ===== src/Printers/Order.antt =====
-- The processes of cw08 in any order: the invariant holds in every run.
use sysops.Common.{
  ◌≡◌, append-nil, total, ℕ, ◌+◌, ◌-◌, ◌==◌, refl, sym, Bool, true, false, List, [], ◌∷◌, ◌++◌,
  none, some, arith, Bool-cases, inl, inr,
}
use sysops.Printers.{
  PrintQueue, Process, ready, posting_full, posting_mutex, user_done, wants_slot, wants_queue,
  writing, moving_tail, idle, wants_job, got_job, reading, printer_done, moving_head, unlocking,
  freeing, printing, killed, Event, printed,
}
use mathlib.Core.Path.{subst}
use sysops.Printers.Steps.{
  Outcome, step, user_step, printer_step, System, Step, Reaches, here, then_step, then_kill,
  then_fork, Kill, Fork, started_as, puts, takes,
}
use sysops.Printers.Weights.{has_mutex, has_job, has_slot, Knows, AllKnow-at}
use sysops.Printers.Invariant.{Inv}
use sysops.Printers.Moves.{kept, written, put_in, taken_from}

module _ (before after : List Process) (seen : List Event) where
  -- The invariant behind a step of the process between `before` and `after`.
  abbrev Keeps : Outcome → Type 0
  Keeps none = Unit {0}
  Keeps (some (m, r, more)) = Inv (before ++ (m ∷ after)) r (seen ++ more)

  -- Any step of the process between `before` and `after`.
  step-Keeps :
      (keep_running : Bool) (rand : ℕ → ℕ) (p : Process) (q : PrintQueue)
      → Inv (before ++ (p ∷ after)) q seen
      → Keeps (step keep_running rand p q)
  unfolding step user_step printer_step puts takes
  step-Keeps true rand ready q v =
      kept before after seen ready (wants_slot _) q q [] v refl refl refl refl refl refl refl refl
        tt
  step-Keeps false rand ready q v =
      kept before after seen ready user_done q q [] v refl refl refl refl refl refl refl refl tt
  step-Keeps true rand idle q v =
      kept before after seen idle wants_job q q [] v refl refl refl refl refl refl refl refl tt
  step-Keeps false rand idle q v =
      kept before after seen idle printer_done q q [] v refl refl refl refl refl refl refl refl tt
  step-Keeps k rand (wants_slot buf) q v = elim (Bool-cases (q.empty == 0)) [
    | inl waits ↦ rw waits tt
    | inr goes ↦ rw goes (
        kept before after seen (wants_slot buf) (wants_queue buf) q
          (record q { empty = q.empty - 1 }) [] v refl refl refl refl (ground arith) refl refl refl
          tt)
  ]
  step-Keeps k rand (wants_queue buf) q v = elim (Bool-cases (q.mutex == 0)) [
    | inl waits ↦ rw waits tt
    | inr goes ↦ rw goes (
        kept before after seen (wants_queue buf) (writing buf) q (record q { mutex = q.mutex - 1 })
          [] v refl refl (ground arith) refl refl refl refl refl tt)
  ]
  step-Keeps k rand (writing buf) q v = written before after seen q buf v
  step-Keeps k rand (moving_tail buf) q v = put_in before after seen q buf v
  step-Keeps k rand posting_full q v =
      kept before after seen posting_full posting_mutex q (record q { full = q.full + 1 }) [] v refl
        refl refl (omega arith) refl refl refl refl tt
  step-Keeps k rand posting_mutex q v =
      kept before after seen posting_mutex ready q (record q { mutex = q.mutex + 1 }) [] v refl refl
        (omega arith) refl refl refl refl refl tt
  step-Keeps k rand user_done q v = tt
  step-Keeps k rand wants_job q v = elim (Bool-cases (q.full == 0)) [
    | inl waits ↦ rw waits tt
    | inr goes ↦ rw goes (
        kept before after seen wants_job got_job q (record q { full = q.full - 1 }) [] v refl refl
          refl (ground arith) refl refl refl refl tt)
  ]
  step-Keeps k rand got_job q v = elim (Bool-cases (q.mutex == 0)) [
    | inl waits ↦ rw waits tt
    | inr goes ↦ rw goes (
        kept before after seen got_job reading q (record q { mutex = q.mutex - 1 }) [] v refl refl
          (ground arith) refl refl refl refl refl tt)
  ]
  step-Keeps k rand reading q v =
      kept before after seen reading (moving_head _) q q [] v refl refl refl refl refl refl refl
        refl refl
  step-Keeps k rand (moving_head job) q v = taken_from before after seen q job v v.waiting refl
  step-Keeps k rand (unlocking job) q v =
      kept before after seen (unlocking job) (freeing job) q (record q { mutex = q.mutex + 1 }) [] v
        refl refl (omega arith) refl refl refl refl refl tt
  step-Keeps k rand (freeing job) q v =
      kept before after seen (freeing job) (printing job) q (record q { empty = q.empty + 1 }) [] v
        refl refl refl refl (omega arith) refl refl refl tt
  step-Keeps k rand (printing job) q v =
      kept before after seen (printing job) idle q q (printed _ ∷ []) v refl refl refl refl refl
        refl refl refl tt
  step-Keeps k rand printer_done q v = tt
  step-Keeps k rand (killed p) q v = tt

Step-Inv :
    (s t : System) (seen more : List Event)
    → Inv s.processes s.queue seen
    → Step s more t
    → Inv t.processes t.queue (seen ++ more)
Step-Inv s t seen more v st =
    let old = subst (λ ps. Inv ps s.queue seen) st.from v in
    let new = step-Keeps st.before st.after seen st.keep_running st.rand st.process s.queue old in
    subst (λ ps. Inv ps t.queue (seen ++ more)) (sym st.to)
      (subst (Keeps st.before st.after seen) st.moves new)

Kill-Inv :
    (s t : System) (seen : List Event)
    → Inv s.processes s.queue seen
    → Kill s t
    → Inv t.processes t.queue seen
unfolding puts takes
Kill-Inv s t seen v k =
    let old = subst (λ ps. Inv ps s.queue seen) k.from v in
    let knows = AllKnow-at s.queue k.before k.after k.process old.know in
    let new =
      kept k.before k.after seen k.process (killed k.process) s.queue s.queue [] old refl refl refl
        refl refl refl refl refl knows in
    subst (λ q. Inv t.processes q seen) (sym k.queue)
      (subst (λ ps. Inv ps s.queue seen) (sym k.to)
        (subst (λ es. Inv (k.before ++ (killed k.process ∷ k.after)) s.queue es) (append-nil seen)
          new))

-- A process in front of its loop holds nothing.
starting-holds :
    (q : PrintQueue) (p : Process)
    → started_as p ≡ true
    → (has_mutex p ≡ 0) × (has_job p ≡ 0) × (has_slot p ≡ 0) × Knows q p
starting-holds q ready e = (refl, refl, refl, tt)
starting-holds q idle e = (refl, refl, refl, tt)
starting-holds q p e = ground arith

started-Inv :
    (p : Process) (ps : List Process) (q : PrintQueue) (seen : List Event)
    → started_as p ≡ true
    → Inv ps q seen
    → Inv (p ∷ ps) q seen
unfolding total
started-Inv p ps q seen e v =
    let holds = starting-holds q p e in
    record {
      waiting = v.waiting;
      order = v.order;
      lock = omega (arith, v.lock, holds.0);
      jobs_posted = omega (arith, v.jobs_posted, holds.1);
      slots_free = omega (arith, v.slots_free, holds.2);
      size = v.size;
      head_inside = v.head_inside;
      tail_behind = v.tail_behind;
      ring = v.ring;
      know = (holds.3, v.know);
    }

Fork-Inv :
    (s t : System) (seen : List Event)
    → Inv s.processes s.queue seen
    → Fork s t
    → Inv t.processes t.queue seen
Fork-Inv s t seen v f =
    subst (λ q. Inv t.processes q seen) (sym f.queue)
      (subst (λ ps. Inv ps s.queue seen) (sym f.to)
        (started-Inv f.process s.processes s.queue seen f.starts v))

pub Reaches-Inv :
    (s t : System) (seen : List Event)
    → Inv s.processes s.queue []
    → Reaches s seen t
    → Inv t.processes t.queue seen
Reaches-Inv s t seen v here = v
Reaches-Inv s t seen v (then_step old more m u before st) =
    Step-Inv m t old more (Reaches-Inv s m old v before) st
Reaches-Inv s t seen v (then_kill old m u before k) =
    Kill-Inv m t seen (Reaches-Inv s m old v before) k
Reaches-Inv s t seen v (then_fork old m u before f) =
    Fork-Inv m t seen (Reaches-Inv s m old v before) f
