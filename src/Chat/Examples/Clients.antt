-- ===== src/Chat/Examples/Clients.antt =====
-- The chat client on small inputs.
use sysops.Common.{◌≡◌, refl, [], ◌∷◌, ◌++◌, pos}
use sysops.CMemory.{c_string, str_eq}
use sysops.Chat.Message.{client_list, client_stop}
use sysops.Chat.State.{sent}
use sysops.Chat.Text.{bytes, strtok, skip_spaces, start_token, split_token}
use sysops.Chat.Client.{
  ClientEnv, stopped, from_client, no_text, cut_newline, choose, choose_token, read_command,
  handle_user_input,
}

abbrev env : ClientEnv
env = record { now = 7; client_id = bytes "ala" ++ (0 ∷ []); after_literal = [] }

-- Two commands, and the end.
run_input :
    handle_user_input env (pos 4) (
      (bytes "list" ++ (10 ∷ 0 ∷ []))
      ∷ (bytes "help me" ++ (10 ∷ 0 ∷ []))
      ∷ (bytes "stop" ++ (10 ∷ 0 ∷ []))
      ∷ [])
    ≡ (
      stopped,
      sent (pos 4) (from_client env client_list (no_text env))
          ∷ sent (pos 4) (from_client env client_stop (no_text env))
          ∷ [],
    )
unfolding handle_user_input read_command cut_newline choose_token choose strtok skip_spaces
    start_token split_token c_string str_eq
run_input = refl
