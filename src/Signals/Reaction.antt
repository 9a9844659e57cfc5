-- ===== src/Signals/Reaction.antt =====
-- cw05/zad1/main.c: the four ways of a process to take SIGUSR1.
use sysops.Common.{
  ℕ, Bool, true, false, if◌then◌else◌, Option, none, some, List, [], ◌∷◌, ◌++◌, length,
}
use sysops.CMemory.{bytes, str_eq}

-- What the process does with a signal: the three dispositions, or its handler.
pub data Disposition : Type 0 where
  default ignore handler : Disposition

-- SIGUSR1 in the process: its disposition, whether the mask holds it back, and whether it is
-- pending.
pub record Usr1 : Type 0 where
  pub disposition : Disposition
  pub masked : Bool
  pub pending : Bool

pub data Ending : Type 0 where
  success failure killed : Ending

-- A line that the process prints.
pub data Line : Type 0 where
  received pending_yes pending_no : Line

-- Which calls work: `sigprocmask`, `sigaction`, `raise`, `sigpending`.
pub record Calls : Type 0 where
  pub masks : Bool
  pub acts : Bool
  pub raises : Bool
  pub asks : Bool

-- What POSIX does on `raise(SIGUSR1)`: the process dies, or goes on with a line or without.
unfoldable pub raised : Usr1 → Option (List Line × Usr1)
raised u = if u.masked then some ([], record u { pending = true }) else elim u.disposition [
  | default ↦ none
  | ignore ↦ some ([], u)
  | handler ↦ some (received ∷ [], u)
]

-- The argument, by the comparisons of `main`.
pub data Mode : Type 0 where
  none_mode ignore_mode handler_mode mask_mode unknown_mode : Mode

unfoldable pub mode_of : List ℕ → Mode
mode_of react_t =
    let is = λ (word : List ℕ). str_eq (length react_t) react_t (word ++ (0 ∷ [])) in
    if is (bytes "none")
    then none_mode
    else if is (bytes "ignore")
    then ignore_mode
    else if is (bytes "handler")
    then handler_mode
    else if is (bytes "mask")
    then mask_mode
    else unknown_mode

-- The end of `main`, behind `raise`: in the mode `mask` it asks for the pending signals.
unfoldable pub ask_pending : Calls → Bool → Usr1 → List Line × Ending
ask_pending c false u = ([], success)
ask_pending c true u =
    if c.asks
    then ((if u.pending then pending_yes else pending_no) ∷ [], success)
    else ([], failure)

abbrev pub go_on : List Line → List Line × Ending → List Line × Ending
go_on lines (more, ending) = (lines ++ more, ending)

-- `main` from `raise` on.
unfoldable pub raise_signal : Calls → Bool → Usr1 → List Line × Ending
unfolding raised ask_pending
raise_signal c is_mask u =
    if c.raises
    then (elim (raised u) [
      | none ↦ ([], killed)
      | some (lines, v) ↦ go_on lines (ask_pending c is_mask v)
    ])
    else ([], failure)

abbrev pub with_disposition : Calls → Disposition → List Line × Ending
with_disposition c h =
    if c.acts
    then raise_signal c false (record { disposition = h; masked = false; pending = false })
    else ([], failure)

unfoldable pub react : Calls → Mode → List Line × Ending
unfolding raise_signal
react c none_mode = with_disposition c default
react c ignore_mode = with_disposition c ignore
react c handler_mode = with_disposition c handler
react c mask_mode =
    if c.masks
    then raise_signal c true (record { disposition = default; masked = true; pending = false })
    else ([], failure)
react c unknown_mode = ([], failure)

-- `main` with one argument.
unfoldable pub main : Calls → List ℕ → List Line × Ending
unfolding mode_of react
main c react_t = react c (mode_of react_t)

-- `main` with its arguments, of which there has to be one.
unfoldable pub run : Calls → List (List ℕ) → List Line × Ending
unfolding main
run c (argv_0 ∷ react_t ∷ []) = main c react_t
run c _ = ([], failure)
