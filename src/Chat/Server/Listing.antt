-- ===== src/Chat/Server/Listing.antt =====
-- The list of names: `handle_list_request` of cw11/server.c.
use sysops.Common.{
  ℕ, ◌+◌, ◌≤◌, ◌≡◌, ◌≢◌, true, false, ◌&&◌, List, [], ◌∷◌, ◌++◌, ℤ, arith, length, leb,
}
use sysops.CMemory.{write_at, literal}
use sysops.Chat.Message.{Message, server_list_message, init_message_t, max_message_text}
use sysops.Chat.State.{Client, sent, Server, done, fault}
use sysops.Chat.Text.{bytes}
use sysops.Chat.Registry.{name_list, names_end}
use sysops.Chat.Server.{Env, handle_list_request}

-- No byte is a NUL.
abbrev NoNul : List ℕ → Type 0
NoNul [] = Unit {0}
NoNul (x ∷ s) = (x ≢ 0) × NoNul s

abbrev pub list_reply : Env → List Client → Message
list_reply env cs =
    init_message_t env.now (literal env.after_literal (bytes "SERVER")) server_list_message
      (write_at env.stack 0 (name_list cs ++ (0 ∷ [])))

pub handle_list_request_fits :
    (env : Env) (fd : ℤ) (s : Server)
    → s.locked ≡ false
    → (names_end s.clients && leb (length (name_list s.clients) + 1) max_message_text) ≡ true
    → handle_list_request env fd s
      ≡ done tt
          (record s { locked = false; log = s.log ++ (sent fd (list_reply env s.clients) ∷ []) })
unfolding handle_list_request
handle_list_request_fits env fd s free h = rw (free, h)

-- Once the names with their newlines and the NUL need more than 512 bytes, `handle_list_request`
-- writes past the end of its array.
handle_list_request_overflow :
    (env : Env) (fd : ℤ) (s : Server)
    → s.locked ≡ false
    → max_message_text ≤ length (name_list s.clients)
    → handle_list_request env fd s ≡ fault
unfolding handle_list_request
handle_list_request_overflow env fd s free long = ground (arith, free)
