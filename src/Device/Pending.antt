-- ===== src/Device/Pending.antt =====
-- The jobs that Odoo lists as claimed and without a final ack (pending_pass of device_jobs/mod.rs in
-- crates/devbridge-client/src): the journal answers for them, and none is run. What Odoo answers is an
-- argument.
pub mod Answered
use devbridge.Common.{
  ℕ, ◌+◌, ◌-◌, String, Bool, true, false, ◌&&◌, ◌||◌, not, Option, none, some, List, [], ◌∷◌, ◌==◌,
  nat_eq, string_eq, leb, ltb, if◌then◌else◌, is_some,
}
use devbridge.Common.Int.{ℤ}
use devbridge.Common.Result.{Result, ok, err}
use devbridge.Device.Entry.{JournalEntry, DeviceJob}
use devbridge.Device.Journal.Store.{Journal, get}
use devbridge.Device.Journal.Operations.{reopen_ack}

pub record PendingJob : Type 0 where
  pub id : ℤ
  pub job_type : String
  pub state : String
  pub client_uuid : String
  pub claimed_at : String

-- Odoo's answer to an ack: accepted, perhaps as a duplicate; refused, with a code or in words; no answer; a
-- broken answer.
pub data AckReply : Type 0 where
  accepted : Bool → String → AckReply
  refused : String → String → AckReply
  business transport other : String → AckReply

abbrev pub refused_too_early : String
refused_too_early = "too_early"

-- Whether `pending` must be asked again later.
unfoldable pub ack_not_received : AckReply → Result Bool
ack_not_received (accepted duplicate state) = ok false
ack_not_received (refused code text) = ok (code == refused_too_early)
ack_not_received (business text) = ok false
ack_not_received (transport text) = err text
ack_not_received (other text) = ok true

-- A round: the journal, the jobs that were acked as not received, and whether to ask again.
pub record Pass : Type 0 where
  pub journal : Journal
  pub not_received : List ℤ
  pub result : Result Bool

abbrev pub add_id : ℤ → Pass → Pass
add_id k pass = record pass { not_received = k ∷ pass.not_received }

abbrev pub not_journaled : ℤ → Result Bool → Bool → (Bool → Journal → Pass) → Journal → Pass
not_journaled k (ok again) later rest s = add_id k (rest (later || again) s)
not_journaled k (err e) later rest s = record { journal = s; not_received = k ∷ []; result = err e }

abbrev pub pending_one :
    ℕ → ℤ → Option JournalEntry → Result Bool → Bool → (Bool → Journal → Pass) → Journal → Pass
pending_one now k (some known) reply later rest s = rest later (reopen_ack now k s).0
pending_one now k none reply later rest s = not_journaled k reply later rest s

unfoldable pub pending_each : ℕ → (PendingJob → AckReply) → List PendingJob → Bool → Journal → Pass
unfolding ack_not_received
pending_each now answer [] later s = record { journal = s; not_received = []; result = ok later }
pending_each now answer (p ∷ ps) later s =
    pending_one now p.id (get p.id s) (ack_not_received (answer p)) later
      (pending_each now answer ps) s

unfoldable pub pending_pass :
    ℕ → (PendingJob → AckReply) → Result (List PendingJob) → Journal → Pass
unfolding pending_each
pending_pass now answer (ok jobs) s = pending_each now answer jobs false s
pending_pass now answer (err e) s = record { journal = s; not_received = []; result = err e }

-- The answer of `next`: a job, or how long the call was allowed to wait.
pub record NextReply : Type 0 where
  pub job : Option DeviceJob
  pub wait_s : ℕ

-- `short_poll_sleep` and `min_long_poll` are the timing's.
unfoldable pub delay_after_next : ℕ → ℕ → NextReply → ℕ → ℕ
delay_after_next short_poll_sleep min_long_poll reply elapsed =
    if is_some reply.job
    then 0
    else if reply.wait_s == 0 || ltb elapsed min_long_poll
    then short_poll_sleep
    else 0

unfoldable pub pending_due_after : ℕ → Bool → ℕ → Option ℕ
pending_due_after pending_retry retry_later now =
    if retry_later then some (now + pending_retry) else none

abbrev is_due : ℕ → Option ℕ → Bool
is_due now none = false
is_due now (some due) = leb due now

unfoldable pub pending_round_due : Option ℕ → ℕ → Bool
pending_round_due pending_due now = is_due now pending_due
