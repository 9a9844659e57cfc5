-- ===== src/Santa/Closing/Ending.antt =====
-- How a run of cw10/main.c ends.
use sysops.Common.{
  ℕ, zero, suc, true, false, ◌-◌, ◌+◌, ◌<◌, ◌≤◌, ◌≡◌, ◌⊎◌, inl, inr, refl, ◌∙◌, ap, sym, Bool-cases,
  some, List, replicate, length, drop, total, arith, ltb,
}
use sysops.Santa.{reindeer_count, waiting, finished, Workshop}
use sysops.Santa.Rest.{finished_waiting}
use sysops.Santa.Program.{
  Main, storing, destroying, created, stored, Creates, Runs-creates, Program, cancel_step, Runs,
  launch,
}
use sysops.Santa.Closing.{moved, moved_at, is_over, Good, Phase, working, closing, cancel_next}
use sysops.Santa.Closing.Turns.{Runs-Good}

waiting_moved : (n k : ℕ) → k ≤ total moved (drop n (replicate k waiting)) + n
unfolding total
waiting_moved n zero = omega arith
waiting_moved zero (suc k) = omega (arith, waiting_moved zero k)
waiting_moved (suc n) (suc k) = omega (arith, waiting_moved n k)

Phase-finished :
    {w : Workshop} {k : ℕ} {g : List ℕ}
    → Phase w k g
    → w.shared.santa ≡ finished
    → (w.reindeer ≡ replicate reindeer_count waiting) × (w.shared.mutex + length g ≡ 1)
Phase-finished {w} (working r c h) e =
    let rest = finished_waiting w r e in (rest.0, omega (arith, rest.1, ap length h))
Phase-finished (closing f rest m c) e = (rest, m)

all_moved : (i : ℕ) → i < reindeer_count → moved_at i (replicate reindeer_count waiting) ≡ 1
all_moved i h = each_moved reindeer_count i h
  where
    each_moved : (n i : ℕ) → i < n → moved_at i (replicate n waiting) ≡ 1
    each_moved zero i h = absurd (omega (arith, h))
    each_moved (suc n) zero h = refl
    each_moved (suc n) (suc i) h = each_moved n i (omega arith)

-- Only reindeer whose threads were created wait.
all_exist :
    (p : Program) (i : ℕ)
    → Good p
    → p.workshop.reindeer ≡ replicate reindeer_count waiting
    → i < reindeer_count
    → p.creates.reindeer i ≡ true
all_exist p i g rest h = elim (Bool-cases (p.creates.reindeer i)) [
  | inl e ↦ e
  | inr e ↦ absurd (omega (arith, g.missing i e, ap (moved_at i) rest, all_moved i h))
]

stored_or_last :
    (m : Main) (k : ℕ)
    → reindeer_count ≤ created m
    → k < reindeer_count
    → (k < stored m) ⊎ ((m ≡ storing k) × (k ≡ reindeer_count - 1))
stored_or_last (storing i) k e h = elim (Bool-cases (ltb k i)) [
  | inl less ↦ inl (ground arith)
  | inr not_less ↦ let same : i ≡ k = ground arith in inr (ap storing same, ground arith)
]
stored_or_last m k e h = inl (ground arith)

-- In any order of steps from the call of `main`, whichever `pthread_create` fails: when Santa
-- cancels a reindeer, its thread was created, and all nine reindeer wait in `pthread_cond_wait`.
-- `main` has stored the handle of that thread, but for the ninth, which can be cancelled while its
-- `pthread_create` has not yet stored the handle.
pub cancel_step-created :
    (c : Creates) (n i : ℕ) (p : Program)
    → Runs (launch c) n p
    → cancel_step p.workshop.shared.santa p.cancelled ≡ some i
    → (p.cancelled < created p.main)
      × (c.reindeer p.cancelled ≡ true)
      × (p.workshop.reindeer ≡ replicate reindeer_count waiting)
      × ((p.cancelled < stored p.main)
          ⊎ ((p.main ≡ storing p.cancelled) × (p.cancelled ≡ reindeer_count - 1)))
cancel_step-created c n i p r e =
    let g = Runs-Good c n p r in
    let next = cancel_next p.workshop.shared.santa p.cancelled i e in
    let rest = (Phase-finished g.phase next.0).0 in
    let unmoved = ap (λ rs. total moved (drop (created p.main) rs)) (sym rest) ∙ g.unborn in
    (
      omega (arith, next.1, unmoved, waiting_moved (created p.main) reindeer_count),
      ap (λ k. k.reindeer p.cancelled) (sym (Runs-creates c n p r))
          ∙ all_exist p p.cancelled g rest next.1,
      rest,
      stored_or_last p.main p.cancelled
          (omega (arith, unmoved, waiting_moved (created p.main) reindeer_count)) next.1,
    )

-- In any order of steps from the call of `main`: when it destroys the mutex and the conditions,
-- the mutex and the condition of the reindeer are in use. All nine stand in `pthread_cond_wait`,
-- and either none of them has ended and the mutex is free, or exactly one has ended, with the
-- mutex, for which the other eight have to wait.
pub destroying-waiting :
    (c : Creates) (n : ℕ) (p : Program)
    → Runs (launch c) n p
    → p.main ≡ destroying
    → (p.workshop.reindeer ≡ replicate reindeer_count waiting)
      × (p.workshop.shared.mutex + length p.gone ≡ 1)
destroying-waiting c n p r e =
    let g = Runs-Good c n p r in
    let all : p.cancelled ≡ reindeer_count = g.over (rw e refl) in
    elim g.phase [ working s k h ↦ absurd (omega arith) | closing f rest m k ↦ (rest, m) ]

-- When the creation of a reindeer fails the program never ends: Santa cancels no thread, and `main`
-- does not come past `pthread_join`.
missing-waits :
    (c : Creates) (n i : ℕ) (p : Program)
    → i < reindeer_count
    → c.reindeer i ≡ false
    → Runs (launch c) n p
    → (p.cancelled ≡ 0) × (is_over p.main ≡ false)
missing-waits c n i p h lost r =
    let g = Runs-Good c n p r in
    let gone = g.missing i (ap (λ k. k.reindeer i) (Runs-creates c n p r) ∙ lost) in
    elim g.phase [
      | working s k e ↦ (
        k,
        elim (Bool-cases (is_over p.main)) [
          | inl over ↦ absurd (omega (arith, g.over over))
          | inr not_over ↦ not_over
        ],
      )
      | closing f rest m k ↦ absurd (omega (arith, gone, ap (moved_at i) rest, all_moved i h))
    ]
