-- ===== src/Device/Tim/Examples.antt =====
-- A payment that is held, committed and settled, one whose authorisation nobody decides, and one that is
-- reconciled after a restart.
mod Reversals
use devbridge.Common.{◌≡◌, refl, true, false, Option, none, some, String, [], ◌∷◌, arith}
use devbridge.Common.Int.{ℤ, pos}
use devbridge.Common.Json.{Json}
use devbridge.Device.Entry.{JournalEntry, JobState, Report, at}
use devbridge.Device.Journal.Store.{empty}
use devbridge.Device.Card.{CardJournal, CardPayment, AuthAck, card_payment, card_later_on_terminal}
use devbridge.Device.Tasks.{Reconciliation}
use devbridge.Device.Tim.Terminal.{ok, TerminalSpec, TxFacts, TwoPhase}
use devbridge.Device.Tim.Rules.{authorisation_problem, settle_pending, settle_after, correlate}
use devbridge.Device.Tim.Purchase.Defs.{
  SettleOp, Contact, Arrival, Environment, PurchaseRequest, fresh, Session, PurchaseEnd, committed,
  rolled_back,
}
use devbridge.Device.Tim.Purchase.Run.{run_purchase}
use devbridge.Device.Tim.Purchase.Money.{Returns, Money, taken, untouched}
use devbridge.Device.Tim.Purchase.Settles.{IsTold}
use devbridge.Device.Tim.Purchase.Told.{run_purchase-IsTold}
use devbridge.Device.Tim.Jobs.{Texts}
use devbridge.Device.Tim.Jobs.Truth.{TellsOdoo, run_purchase-TellsOdoo}
use devbridge.Device.Tim.Reconcile.{Read, Asking, reconcile_transaction}
use devbridge.Device.Tim.Reconcile.Proven.{IsProven, reconcile_transaction-IsProven}
use devbridge.Common.Table.{find}

abbrev pub authorisation : TxFacts
authorisation = record {
  transaction_type = some (pos 1);
  amount_minor = some (pos 1250);
  currency_eur = some true;
  trans_seq = some (pos 42);
  trans_ref = none;
  trm_trans_ref = none;
  auth_code = some "A1";
  pos_entry_mode = none;
  cvm = some (pos 1);
  brand_name = some "VISA";
  card_number_printable = some "XXXXXXXXXXXX5240";
  merchant_receipt = none;
  cardholder_receipt = none;
}

abbrev pub show_int : ℤ → String
show_int z = "n"

-- A terminal that answers every call, and a till that commits at once.
abbrev till : Arrival → Environment
till arrival = record {
  object = λ h. ok tt;
  connect = λ h. ok tt;
  login = λ h. ok tt;
  logout = λ h. ok tt;
  disconnect = λ h. ok tt;
  commit = λ h. ok tt;
  rollback = λ h. ok tt;
  terminal_id = λ h. ok (some "T1");
  last_transaction = λ h. ok (record { transaction_type = pos 0; outcome = pos 0; facts = none });
  transaction = λ kind amount h. ok authorisation;
  contact = λ baseline h. Contact.journaled;
  authorized = λ facts tid h. none;
  arrival = λ h. arrival;
  authorization_refused = λ h. false;
  late = λ h. SettleOp.rollback ∷ [];
  took = λ h. 3;
  show = show_int;
  debug = λ o. "n";
}

abbrev pub spec : TerminalSpec
spec = record { kasa_id = pos 3; ip = "10.0.0.8"; expected_tid = some "T1"; commit_timeout_s = 60 }

abbrev sale : PurchaseRequest
sale = record {
  kind = TwoPhase.purchase;
  amount_minor = pos 1250;
  deadline = 2000;
  stored_max_seq = none;
  release_within = 1000;
}

abbrev end_of : Option (PurchaseEnd × Session) → Option Money
end_of none = none
end_of (some (committed facts tid, s)) = some taken
end_of (some (rolled_back why, s)) = some untouched
end_of (some _) = some Money.unknown

-- The commit takes the money.
committed_runs :
    end_of (run_purchase 3000 (till (Arrival.request SettleOp.commit)) spec sale (fresh 0))
    ≡ some taken
unfolding run_purchase authorisation_problem
committed_runs = refl

-- Nobody decides: the deadline rolls the authorisation back.
undecided_runs :
    end_of (run_purchase 3000 (till Arrival.timeout) spec sale (fresh 0)) ≡ some untouched
unfolding run_purchase authorisation_problem
undecided_runs = refl

run_purchase-IsTold_example :
    Returns IsTold (run_purchase 3000 (till Arrival.timeout) spec sale (fresh 0))
run_purchase-IsTold_example =
    run_purchase-IsTold 3000 (till Arrival.timeout) spec sale (omega arith) (omega arith) 0

abbrev words : Texts
words = record {
  show = show_int;
  committed_result = λ id. "committed";
  rolled_back_result = λ id why. "rolled back";
  card_result = λ state tid facts. state;
  reconciled_result = λ state tid facts. state;
  parse = λ s. Json.null;
  json = λ v. "v";
  cents = λ n. pos 1250;
}

abbrev asked_row : CardPayment
asked_row = record {
  terminal_ip = "10.0.0.8";
  amount_minor = pos 1250;
  baseline_seq = some (pos 41);
  contact_at = at 1000;
  authorized_at = none;
  trans_seq = none;
  auth_result = none;
  auth_ack = AuthAck.unowed;
  auth_ack_note = none;
  ended_at = none;
  person_reason = none;
  tx_type = pos 1;
  target_seq = none;
}

abbrev after_crash : CardJournal
after_crash = record { jobs = empty; card_payments = (pos 7, asked_row) ∷ [] }

run_purchase-TellsOdoo_example :
    Returns
      (TellsOdoo words 9 (pos 7) after_crash)
      (run_purchase 3000 (till (Arrival.request SettleOp.commit)) spec sale (fresh 0))
run_purchase-TellsOdoo_example =
    run_purchase-TellsOdoo 3000 (till (Arrival.request SettleOp.commit)) spec sale words 0 9 (pos 7)
      after_crash (omega arith) (omega arith)

abbrev pub entry : JournalEntry
entry = record {
  job = record {
    id = pos 7;
    job_type = "card.purchase";
    client_uuid = "u";
    kasa_id = some (pos 3);
    kasa_name = "till";
    pos_order = "null";
    payload = "{}";
    created_at = at 0;
    claimed_at = at 0;
  };
  state = JobState.indeterminate;
  result = none;
  error_code = none;
  error_text = none;
  acked = false;
  ack_note = none;
  report = Report.unowed;
  reconcile_attempts = 0;
  received_at = at 0;
  updated_at = at 0;
  device_contact_at = some (at 1000);
}

abbrev asking : Asking
asking = record {
  now = 200000;
  started_at = 2000;
  parse_time = λ s. none;
  spec = some spec;
  read =
      Read.last (some "T1")
        (record { transaction_type = pos 1; outcome = pos 1; facts = some authorisation });
  why = record { no_trans_seq = "a"; not_this_payment = "b"; other_outcome = "c" };
  waiting = "then";
}

-- The terminal's latest transaction is the payment, and it succeeded.
reconciled_runs :
    (reconcile_transaction words asking entry after_crash).0 ≡ Reconciliation.done "successful"
unfolding reconcile_transaction card_payment find settle_pending settle_after correlate
    card_later_on_terminal
reconciled_runs = refl

reconcile_transaction-IsProven_example :
    IsProven asking entry after_crash (reconcile_transaction words asking entry after_crash).0
reconcile_transaction-IsProven_example =
    reconcile_transaction-IsProven words asking entry after_crash
