-- ===== src/Signals/Exchange.antt =====
-- The catcher of cw05/zad2 and its senders, by their process numbers, in any order of steps.
pub mod Counting
pub mod Confirming
pub mod Missing
use sysops.Common.{
  ℕ, ◌+◌, ◌==◌, Bool, true, false, ◌&&◌, if◌then◌else◌, Option, none, some, List, [], ◌∷◌, ◌++◌,
}
use sysops.Signals.{Output, Catcher, pausing, left, Request, sig_handler}

-- Where a sender stands in `main`: in front of `sigqueue`, behind it, in `sigsuspend`, and returned
-- with EXIT_SUCCESS or EXIT_FAILURE. `absent`: there is no sender with that number.
pub data Point : Type 0 where
  absent sending queued suspended succeeded failed : Point

-- `received` counts the runs of the sender's handler.
pub record Sender : Type 0 where
  pub work_type : ℕ
  pub point : Point
  pub received : ℕ

-- `pending` is the SIGUSR1 that waits for the catcher, with its sender and its value: of a signal
-- that is not a real-time signal at most one waits.
pub record Exchange : Type 0 where
  pub catcher : Catcher
  pub pending : Option (ℕ × ℕ)
  pub output : List Output
  pub senders : ℕ → Sender

abbrev pub update : (ℕ → Sender) → ℕ → Sender → ℕ → Sender
update f p s q = if p == q then s else f q

abbrev pub is_alive : Point → Bool
is_alive sending = true
is_alive queued = true
is_alive suspended = true
is_alive _ = false

-- What SIGUSR1 does to a sender: `sigsuspend` returns behind the handler, at any other point the
-- handler alone runs.
abbrev pub signalled : Sender → Sender
signalled s = elim s.point [
  | queued ↦ record s { received = s.received + 1 }
  | suspended ↦ record s { point = succeeded; received = s.received + 1 }
  | _ ↦ s
]

-- `sigqueue` to the catcher. A second signal is dropped while one is pending.
unfoldable pub sigqueue : ℕ → Exchange → Exchange
sigqueue p x =
    let s = x.senders p in
    elim x.catcher [
      | left ok ↦ record x { senders = update x.senders p (record s { point = failed }) }
      | pausing k ↦ elim x.pending [
        | none ↦ record x {
          pending = some (p, s.work_type);
          senders = update x.senders p (record s { point = queued });
        }
        | some other ↦ record x { senders = update x.senders p (record s { point = queued }) }
      ]
    ]

-- A step: a sender that goes on, or the catcher's handler on the pending signal.
pub data Event : Type 0 where
  sends suspends : ℕ → Event
  catches : Event

unfoldable pub send_from : Point → ℕ → Exchange → Exchange
unfolding sigqueue
send_from sending p x = sigqueue p x
send_from _ p x = x

unfoldable pub suspend_from : Point → ℕ → Exchange → Exchange
suspend_from queued p x = record x {
  senders = update x.senders p (record (x.senders p) { point = suspended });
}
suspend_from _ p x = x

-- The handler of the catcher, for the pending signal of `p` with its value.
unfoldable pub handle : ℕ → ℕ → ℕ → Exchange → Exchange
unfolding sig_handler
handle k p work x =
    let reached = is_alive (x.senders p).point in
    let (out, next) = sig_handler (record { pid = p; work_type = work; reached = reached }) k in
    record {
      catcher = next;
      pending = none;
      output = x.output ++ out;
      senders = if reached then update x.senders p (signalled (x.senders p)) else x.senders;
    }

unfoldable pub catch_pending : Catcher → Option (ℕ × ℕ) → Exchange → Exchange
unfolding handle
catch_pending (pausing k) (some (p, work)) x = handle k p work x
catch_pending _ _ x = x

-- A step that is not possible changes nothing.
unfoldable pub act : Event → Exchange → Exchange
unfolding send_from suspend_from catch_pending
act (sends p) x = send_from (x.senders p).point p x
act (suspends p) x = suspend_from (x.senders p).point p x
act catches x = catch_pending x.catcher x.pending x

unfoldable pub acts : List Event → Exchange → Exchange
unfolding act
acts [] x = x
acts (e ∷ es) x = acts es (act e x)

-- `main` of the catcher, up to its loop: whether `sigaction` works.
unfoldable pub start_catcher : Bool → Catcher
start_catcher handles = if handles then pausing 0 else left false

-- A process that is about to send a request, or none.
abbrev pub asking : Option ℕ → Sender
asking none = record { work_type = 0; point = absent; received = 0 }
asking (some work) = record { work_type = work; point = sending; received = 0 }

-- The catcher behind its start, and the processes that are about to send a request.
abbrev pub begin : Bool → (ℕ → Option ℕ) → Exchange
begin handles requests = record {
  catcher = start_catcher handles;
  pending = none;
  output = [];
  senders = λ p. asking (requests p);
}
