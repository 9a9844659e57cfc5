-- ===== src/Santa/Closing/Turns.antt =====
-- The steps of cw10/main.c keep what is known of the whole run.
use sysops.Common.{
  ℕ, zero, suc, true, false, ◌+◌, ◌<◌, ◌≡◌, refl, ◌∙◌, ap, sym, some, List, ◌∷◌, ◌++◌, replicate,
  length, drop, total, arith,
}
use mathlib.Core.Path.{subst}
use sysops.Santa.{
  reindeer_count, Reindeer, starting, waiting, finished, Shared, Workshop, santa_step,
  reindeer_step, santa_moves, reindeer_moves, Reaches, then_step,
}
use sysops.Santa.Knowledge.{waits}
use sysops.Santa.Rest.{AllWait, waits-among, waiting_stays, finished_waiting}
use sysops.Santa.Program.{
  Creates, created, Program, cancel_step, stop, Turn, main_turns, santa_turns, santa_cancels,
  reindeer_turns, reindeer_stops, Runs, at_rest, then_turn, launch,
}
use sysops.Santa.Closing.{
  moved, Phase, working, closing, Good, all_nine, MainKeeps, main_step-Keeps, SantaUnborn,
  santa_step-Unborn, SantaStill, santa_step-Still, moved_at, moved_at-other, drop-behind,
  cancel_next,
}

finished_stays : (w v : Workshop) → ¬ (santa_step finished w ≡ some v)
unfolding santa_step
finished_stays w v e = ground arith

pub stop_waiting :
    (r : Reindeer) (s t : Shared)
    → waits r ≡ 1
    → stop r s ≡ some t
    → (t.mutex + 1 ≡ s.mutex) × (t.santa ≡ s.santa)
unfolding stop
stop_waiting waiting s t h e = ground arith
stop_waiting r s t h e = absurd (omega arith)

-- Every one of the nine waits.
pub one_waits :
    (before after : List Reindeer) (r : Reindeer)
    → replicate reindeer_count waiting ≡ before ++ (r ∷ after)
    → waits r ≡ 1
one_waits before after r e = waits-among before after r (subst AllWait e all_nine)

module _ {w : Workshop} {k : ℕ} {g : List ℕ} where
  santa-Phase : (v : Workshop) → santa_step w.shared.santa w ≡ some v → Phase w k g → Phase v k g
  santa-Phase v e (working r c h) = working (then_step w v r (santa_moves v e)) c h
  santa-Phase v e (closing f rest m c) =
      absurd (finished_stays w v (ap (λ p. santa_step p w) (sym f) ∙ e))

  cancel-Phase : (i : ℕ) → cancel_step w.shared.santa k ≡ some i → Phase w k g → Phase w i g
  cancel-Phase i e ph =
      let next = cancel_next w.shared.santa k i e in
      elim ph [
        | working r c h ↦
            let rest = finished_waiting w r next.0 in
            closing next.0 rest.0 (omega (arith, rest.1, ap length h)) (omega arith)
        | closing f rest m c ↦ closing f rest m (omega arith)
      ]

  module _ (before after : List Reindeer) (r : Reindeer)
      (place : w.reindeer ≡ before ++ (r ∷ after)) where
    moves-Phase :
        (m : Reindeer) (t : Shared)
        → reindeer_step r w.shared ≡ some (m, t)
        → Phase w k g
        → Phase (record { shared = t; reindeer = before ++ (m ∷ after) }) k g
    moves-Phase m t e (working s c h) =
        working (then_step w _ s (reindeer_moves before after r m t place e)) c h
    moves-Phase m t e (closing f rest l c) =
        absurd (waiting_stays r m w.shared t (one_waits before after r (sym rest ∙ place)) e)

    stop-Phase :
        (t : Shared)
        → length before < k
        → stop r w.shared ≡ some t
        → Phase w k g
        → Phase (record w { shared = t }) k (length before ∷ g)
    stop-Phase t told e (working s c h) = absurd (omega arith)
    stop-Phase t told e (closing f rest l c) =
        let took = stop_waiting r w.shared t (one_waits before after r (sym rest ∙ place)) e in
        closing (took.1 ∙ f) rest (omega (arith, took.0)) c

true_not_false : ¬ (true ≡ false)
true_not_false e = ground arith

Turn-Good : (p q : Program) → Good p → Turn p q → Good q
Turn-Good p q g (main_turns m e) =
    let kept = subst (MainKeeps p) e (main_step-Keeps p.main p g.unborn g.phase g.over) in
    record { unborn = kept.0; missing = g.missing; phase = g.phase; over = kept.1 }
Turn-Good p q g (santa_turns w run up e) = record {
  missing = λ i h.
      subst (SantaStill i p.workshop.reindeer) e
        (santa_step-Still i p.workshop.shared.santa p.workshop)
      ∙ g.missing i h;
  unborn =
      subst (SantaUnborn (created p.main) p.workshop.reindeer) e
        (santa_step-Unborn (created p.main) p.workshop.shared.santa p.workshop)
      ∙ g.unborn;
  phase = santa-Phase w e g.phase;
  over = g.over;
}
Turn-Good p q g (santa_cancels i run e) =
    let next = cancel_next p.workshop.shared.santa p.cancelled i e in
    record {
      unborn = g.unborn;
      missing = g.missing;
      phase = cancel-Phase i e g.phase;
      over = λ o. let all = g.over o in absurd (omega arith);
    }
Turn-Good p q g (reindeer_turns before after r m t run born exists alive place e) = record {
  missing = λ i h.
      moved_at-other before after r m i
        (λ same. true_not_false (sym exists ∙ ap p.creates.reindeer (sym same) ∙ h))
      ∙ ap (moved_at i) (sym place)
      ∙ g.missing i h;
  unborn =
      ap (total moved) (drop-behind before after r m (created p.main) born)
      ∙ ap (λ rs. total moved (drop (created p.main) rs)) (sym place)
      ∙ g.unborn;
  phase = moves-Phase before after r place m t e g.phase;
  over = g.over;
}
Turn-Good p q g (reindeer_stops before after r t run told alive place e) = record {
  unborn = g.unborn;
  missing = g.missing;
  phase = stop-Phase before after r place t told e g.phase;
  over = g.over;
}

start_still : (i : ℕ) → moved_at i (replicate reindeer_count starting) ≡ 0
start_still i = still reindeer_count i
  where
    still : (n i : ℕ) → moved_at i (replicate n starting) ≡ 0
    still zero i = refl
    still (suc n) zero = refl
    still (suc n) (suc i) = still n i

pub Runs-Good : (c : Creates) (n : ℕ) (p : Program) → Runs (launch c) n p → Good p
unfolding total
Runs-Good c n p at_rest = record {
  unborn = refl;
  missing = λ i h. start_still i;
  phase = working Reaches.here refl refl;
  over = λ e. ground arith;
}
Runs-Good c n p (then_turn k q r before t) = Turn-Good q p (Runs-Good c k q before) t
