-- ===== src/Santa/Program.antt =====
-- The whole run of cw10/main.c: `main` creates the threads and waits for Santa, who cancels the
-- reindeer behind his last delivery.
use sysops.Common.{
  ℕ, ◌+◌, ◌-◌, ◌<◌, ◌≡◌, ◌==◌, ltb, refl, Bool, true, false, ◌||◌, if◌then◌else◌, Option, none,
  some, List, [], ◌∷◌, ◌++◌, length,
}
use sysops.Santa.{
  reindeer_count, Reindeer, waiting, woken, Santa, finished, Shared, Workshop, reindeer_step,
  santa_step, start,
}

-- Which `pthread_create` works; `main` looks at none of the results.
pub record Creates : Type 0 where
  pub santa : Bool
  pub reindeer : ℕ → Bool

-- Where `main` stands: in front of the creation of Santa's thread, in front of the test of its
-- loop, in `pthread_create` with the new thread there and its handle not yet stored, in
-- `pthread_join`, in front of the three calls that destroy the mutex and the conditions,
-- and behind the end of the process.
pub data Main : Type 0 where
  creating_santa : Main
  creating storing : ℕ → Main
  joining destroying returned : Main

-- The reindeer for which `main` has come so far that their threads run, where they could be
-- created.
abbrev pub created : Main → ℕ
created creating_santa = 0
created (creating i) = i
created (storing i) = i + 1
created _ = reindeer_count

-- The entries of `reindeer_threads` that `pthread_create` has stored, where it worked.
abbrev pub stored : Main → ℕ
stored creating_santa = 0
stored (creating i) = i
stored (storing i) = i
stored _ = reindeer_count

-- `main` is behind the creation of Santa's thread and the process goes on.
abbrev pub is_running : Main → Bool
is_running creating_santa = false
is_running returned = false
is_running _ = true

-- `cancelled` is the counter of Santa's last loop, `gone` the reindeer that have ended.
pub record Program : Type 0 where
  pub creates : Creates
  pub workshop : Workshop
  pub main : Main
  pub cancelled : ℕ
  pub gone : List ℕ

-- The loop of `santa` behind the deliveries, of which one turn is `pthread_cancel`.
unfoldable pub cancel_step : Santa → ℕ → Option ℕ
cancel_step finished i = if ltb i reindeer_count then some (i + 1) else none
cancel_step _ i = none

-- Santa's thread has returned.
unfoldable pub has_returned : Santa → ℕ → Bool
has_returned finished i = i == reindeer_count
has_returned _ i = false

-- A cancelled reindeer ends where it stands, with what it holds. In `pthread_cond_wait` it takes
-- the mutex first.
unfoldable pub stop : Reindeer → Shared → Option Shared
stop waiting s = if s.mutex == 0 then none else some (record s { mutex = s.mutex - 1 })
stop woken s = if s.mutex == 0 then none else some (record s { mutex = s.mutex - 1 })
stop r s = some s

-- Without Santa's thread `pthread_join` gets a handle that was never set, and no run goes on there.
unfoldable pub main_step : Main → Program → Option Main
unfolding has_returned
main_step creating_santa p = some (creating 0)
main_step (creating i) p = if ltb i reindeer_count then some (storing i) else some joining
main_step (storing i) p = some (creating (i + 1))
main_step joining p =
    if has_returned p.workshop.shared.santa p.cancelled then some destroying else none
main_step destroying p = some returned
main_step returned p = none

abbrev pub has_ended : ℕ → List ℕ → Bool
has_ended i [] = false
has_ended i (j ∷ js) = i == j || has_ended i js

-- A step of one of the threads.
pub data Turn (p : Program) : Program → Type 0 where
  main_turns : (m : Main) → main_step p.main p ≡ some m → Turn p (record p { main = m })
  santa_turns :
      (w : Workshop)
      → is_running p.main ≡ true
      → p.creates.santa ≡ true
      → santa_step p.workshop.shared.santa p.workshop ≡ some w
      → Turn p (record p { workshop = w })
  santa_cancels :
      (i : ℕ)
      → is_running p.main ≡ true
      → cancel_step p.workshop.shared.santa p.cancelled ≡ some i
      → Turn p (record p { cancelled = i })
  reindeer_turns :
      (before after : List Reindeer) (r m : Reindeer) (t : Shared)
      → is_running p.main ≡ true
      → length before < created p.main
      → p.creates.reindeer (length before) ≡ true
      → has_ended (length before) p.gone ≡ false
      → p.workshop.reindeer ≡ before ++ (r ∷ after)
      → reindeer_step r p.workshop.shared ≡ some (m, t)
      → Turn p (record p { workshop = record { shared = t; reindeer = before ++ (m ∷ after) } })
  reindeer_stops :
      (before after : List Reindeer) (r : Reindeer) (t : Shared)
      → is_running p.main ≡ true
      → length before < p.cancelled
      → has_ended (length before) p.gone ≡ false
      → p.workshop.reindeer ≡ before ++ (r ∷ after)
      → stop r p.workshop.shared ≡ some t
      → Turn p
          (record p { workshop = record p.workshop { shared = t }; gone = length before ∷ p.gone })

-- `n` steps.
pub data Runs (p : Program) : ℕ → Program → Type 0 where
  at_rest : Runs p 0 p
  then_turn : (n : ℕ) (q r : Program) → Runs p n q → Turn q r → Runs p (n + 1) r

-- The call of `main`.
abbrev pub launch : Creates → Program
launch c = record { creates = c; workshop = start; main = creating_santa; cancelled = 0; gone = [] }

-- No `pthread_create` fails.
abbrev pub AllCreated : Creates → Type 0
AllCreated c = (c.santa ≡ true) × ((i : ℕ) → i < reindeer_count → c.reindeer i ≡ true)

pub Runs-creates : (c : Creates) (n : ℕ) (p : Program) → Runs (launch c) n p → p.creates ≡ c
Runs-creates c n p at_rest = refl
Runs-creates c n p (then_turn k q r before (main_turns m e)) = Runs-creates c k q before
Runs-creates c n p (then_turn k q r before (santa_turns w up h e)) = Runs-creates c k q before
Runs-creates c n p (then_turn k q r before (santa_cancels i up e)) = Runs-creates c k q before
Runs-creates c n p (then_turn k q r before (reindeer_turns b a x m t up l w g place e)) =
    Runs-creates c k q before
Runs-creates c n p (then_turn k q r before (reindeer_stops b a x t up l g place e)) =
    Runs-creates c k q before
