-- ===== src/Santa/Schedule.antt =====
-- Runs of cw10/main.c by evaluation: one order of the threads, up to a state that is asked for.
use sysops.Common.{
  ℕ, zero, suc, ◌+◌, ◌<◌, ◌≡◌, ◌==◌, ltb, refl, ◌∙◌, sym, Bool, true, false, Option, none, some,
  List, [], ◌∷◌, ◌++◌, length, append_assoc, arith,
}
use sysops.Santa.{Reindeer, reindeer_step, santa_step}
use sysops.Santa.Program.{
  creating_santa, creating, storing, joining, destroying, returned, created, is_running, Program,
  cancel_step, stop, main_step, has_ended, main_turns, santa_turns, santa_cancels, reindeer_turns,
  reindeer_stops, Runs, at_rest, then_turn, launch, Turn, Creates,
}

abbrev pub all_work : Creates
all_work = record { santa = true; reindeer = λ i. true }

abbrev pub beginning : Program
beginning = launch all_work

pub record Run : Type 0 where
  pub steps : ℕ
  pub last : Program
  pub reach : Runs beginning steps last

-- The value of an option, or else the second run.
pick {ℓ} : {A : Type ℓ} (x : Option A) → ((a : A) → x ≡ some a → Run) → Run → Run
pick none f other = other
pick (some a) f other = f a refl

-- The first run under the test, or else the second.
when : (b : Bool) → (b ≡ true → Run) → Run → Run
when true f other = f refl
when false f other = other

pub unless : (b : Bool) → (b ≡ false → Run) → Run → Run
unless true f other = other
unless false f other = f refl

pub less : (i n : ℕ) → ltb i n ≡ true → i < n
less i n h = ground arith

module _ (r : Run) where
  abbrev pub after : (q : Program) → Turn r.last q → Run
  after q t = record { steps = r.steps + 1; last = q; reach = then_turn r.steps r.last q r.reach t }

  -- The first reindeer behind `before` that can go on, or end.
  walk :
      (front back : List Reindeer)
      → is_running r.last.main ≡ true
      → r.last.workshop.reindeer ≡ front ++ back
      → Run
      → Run
  unfolding pick when unless
  walk front [] up place other = other
  walk front (x ∷ back) up place other =
      let further =
        walk (front ++ (x ∷ [])) back up (place ∙ sym (append_assoc front (x ∷ []) back)) other in
      when (ltb (length front) (created r.last.main))
        (λ born.
          pick (reindeer_step x r.last.workshop.shared)
            (λ s e.
              unless (has_ended (length front) r.last.gone)
                (λ alive.
                  when (r.last.creates.reindeer (length front))
                    (λ exists.
                      after _ (
                        reindeer_turns front back x s.0 s.1 up (less _ _ born) exists alive place
                          e))
                    further)
                further)
            further)
        further

  -- The first reindeer that was cancelled ends.
  end_one :
      (front back : List Reindeer)
      → is_running r.last.main ≡ true
      → r.last.workshop.reindeer ≡ front ++ back
      → Run
      → Run
  unfolding pick when unless
  end_one front [] up place other = other
  end_one front (x ∷ back) up place other =
      when (ltb (length front) r.last.cancelled)
        (λ told.
          pick (stop x r.last.workshop.shared)
            (λ t e.
              unless (has_ended (length front) r.last.gone)
                (λ alive. after _ (reindeer_stops front back x t up (less _ _ told) alive place e))
                other)
            other)
        other

  -- `main` goes first, then the reindeer, then Santa.
  next : Run
  unfolding pick when walk end_one
  next =
      pick (main_step r.last.main r.last) (λ m e. after _ (main_turns m e))
        (when (is_running r.last.main)
          (λ up. walk [] r.last.workshop.reindeer up refl (
            pick (santa_step r.last.workshop.shared.santa r.last.workshop)
              (λ w e. when r.last.creates.santa (λ there. after _ (santa_turns w up there e)) r)
              (end_one [] r.last.workshop.reindeer up refl (
                pick (cancel_step r.last.workshop.shared.santa r.last.cancelled)
                  (λ i e. after _ (santa_cancels i up e)) r))))
          r)

-- Up to a state, on fuel.
run_to : (Program → Bool) → ℕ → Run → Run
unfolding next
run_to halts zero r = r
run_to halts (suc n) r = elim (halts r.last) [ true ↦ r | false ↦ run_to halts n (next r) ]

abbrev launched : Run
launched = record { steps = 0; last = beginning; reach = at_rest }

is_cancelling : Program → Bool
is_cancelling p = p.cancelled == 1

is_destroying : Program → Bool
is_destroying p = elim p.main [
  | creating_santa ↦ false
  | creating i ↦ false
  | storing i ↦ false
  | joining ↦ false
  | destroying ↦ true
  | returned ↦ false
]

is_at_end : Program → Bool
is_at_end p = elim p.main [
  | creating_santa ↦ false
  | creating i ↦ false
  | storing i ↦ false
  | joining ↦ false
  | destroying ↦ false
  | returned ↦ true
]

unfoldable pub at_cancel : Run
unfolding run_to is_cancelling
at_cancel = run_to is_cancelling 867 launched

unfoldable pub at_destroy : Run
unfolding run_to is_destroying
at_destroy = run_to is_destroying 867 launched

unfoldable pub at_return : Run
unfolding run_to is_at_end
at_return = run_to is_at_end 867 launched
