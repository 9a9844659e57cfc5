-- ===== src/Calculator/Setup.antt =====
-- The main functions of cw06/zad2 around their loops: the named pipes.
use sysops.Common.{Bool, true, false, if◌then◌else◌, List, [], ◌∷◌, ◌++◌}

-- INPUT_PIPE_NAME and OUTPUT_PIPE_NAME
pub data Pipe : Type 0 where
  input_pipe output_pipe : Pipe

-- A call on a pipe that works (an unlink in any case), and the loop of the process.
pub data PipeCall : Type 0 where
  unlinks makes opens closes : Pipe → PipeCall
  loops : PipeCall

-- Whether `mkfifo` and `open` work on each of the pipes.
pub record PipeResults : Type 0 where
  pub input_made : Bool
  pub output_made : Bool
  pub input_opened : Bool
  pub output_opened : Bool

abbrev pub remove_pipes : List PipeCall
remove_pipes = unlinks input_pipe ∷ unlinks output_pipe ∷ []

-- `main` of the calculator behind both `mkfifo`.
unfoldable pub open_and_loop : PipeResults → List PipeCall × Bool
open_and_loop r =
    if r.input_opened
    then (if r.output_opened
        then (
          opens input_pipe
              ∷ opens output_pipe
              ∷ loops
              ∷ closes input_pipe
              ∷ closes output_pipe
              ∷ [],
          true,
        )
        else (opens input_pipe ∷ remove_pipes ++ (closes input_pipe ∷ []), false))
    else (remove_pipes, false)

-- `main` of the calculator: its calls, and whether it returns EXIT_SUCCESS.
unfoldable pub calculator_main : PipeResults → List PipeCall × Bool
unfolding open_and_loop
calculator_main r =
    let (calls, ok) = open_and_loop r in
    if r.input_made
    then (if r.output_made
        then (remove_pipes ++ (makes input_pipe ∷ makes output_pipe ∷ calls), ok)
        else (remove_pipes ++ (makes input_pipe ∷ []), false))
    else (remove_pipes, false)

-- `main` of the caller.
unfoldable pub caller_main : PipeResults → List PipeCall × Bool
caller_main r =
    if r.input_opened
    then (if r.output_opened
        then (
          opens input_pipe
              ∷ opens output_pipe
              ∷ loops
              ∷ closes input_pipe
              ∷ closes output_pipe
              ∷ [],
          true,
        )
        else (opens input_pipe ∷ closes input_pipe ∷ [], false))
    else ([], false)
