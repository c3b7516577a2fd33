-- ===== src/Device/Tim/Examples/Reversals.antt =====
-- Two jobs that reverse one transaction: the second sends nothing.
use devbridge.Common.{◌≡◌, refl, true, false, none, some, [], ◌∷◌, List}
use devbridge.Common.Int.{ℤ, pos}
use devbridge.Common.Table.{find, update}
use devbridge.Device.Entry.{JournalEntry, JobState}
use devbridge.Device.Journal.Store.{empty, get, is_lan_job}
use devbridge.Device.Card.{CardJournal, card_contact_of, card_other_reversal}
use devbridge.Device.Card.Trace.{Event, run}
use devbridge.Device.Tim.Terminal.{ok}
use devbridge.Device.Tim.Session.{Answers}
use devbridge.Device.Tim.Reversal.{Asked, ReversalRun, reversal}
use devbridge.Device.Tim.Reversal.Once.{reversed_once}
use devbridge.Device.Tim.Examples.{authorisation, show_int, spec, entry}

abbrev executing_job : JournalEntry
executing_job = record entry { state = JobState.executing; device_contact_at = none }

abbrev two_jobs : CardJournal
two_jobs = record {
  jobs = record empty { device_jobs = (pos 8, executing_job) ∷ (pos 9, executing_job) ∷ [] };
  card_payments = [];
}

abbrev asked : Asked
asked = record {
  now = 5;
  last_transaction = ok (record { transaction_type = pos 0; outcome = pos 0; facts = none });
  reversal = λ seq. ok authorisation;
  balances = record { rows = []; next = 1 };
  show = show_int;
  card_result = λ state tid facts. state;
}

abbrev reversal_of : ℤ → ReversalRun
reversal_of job_id = record {
  job_id = job_id;
  ip = "10.0.0.8";
  trans_seq = pos 42;
  amount_minor = pos 1250;
  payload_tid = some "T1";
  stored_max_seq = none;
}

abbrev answers : Answers
answers = record { object = ok tt; connect = ok tt; login = ok tt; terminal_id = ok (some "T1") }

abbrev meanwhile : List Event
meanwhile = Event.card_ended 6 (pos 8) ∷ []

first_sent : (reversal asked (reversal_of (pos 8)) spec (some answers) two_jobs).0.1 ≡ true
unfolding reversal card_other_reversal card_contact_of find
first_sent = refl

reversed_once_example :
    (reversal asked
      (reversal_of (pos 9))
      spec
      (some answers)
      (run meanwhile (reversal asked (reversal_of (pos 8)) spec (some answers) two_jobs).1)).0.1
    ≡ false
unfolding reversal card_other_reversal card_contact_of run get is_lan_job find update
reversed_once_example =
    reversed_once asked asked (reversal_of (pos 8)) (reversal_of (pos 9)) spec spec (some answers)
      (some answers) 8 meanwhile two_jobs refl first_sent (tt, tt) refl refl refl
