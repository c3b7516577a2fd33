-- ===== src/Device/Card/Examples.antt =====
-- A card payment from its contact to its outcome, with a restart in it, and the safety balance of a day.
use devbridge.Common.{arith, ◌+◌, ◌≤◌, true, none, some, List, [], ◌∷◌, ◌≡◌, refl, one_if}
use devbridge.Common.Int.{pos}
use devbridge.Common.Table.{find, insert, update, update_all}
use devbridge.Common.Text.{starts_with}
use devbridge.Device.Entry.{DeviceJob, at, as_str, Outcome}
use devbridge.Device.Journal.Store.{empty, get, locate, is_lan_job, update_row}
use devbridge.Device.Journal.Operations.{
  insert_received, insert_job, start_execution, record_outcome, update_device,
}
use devbridge.Device.Journal.Sweeps.{recover_after_restart}
use devbridge.Device.Journal.Trace.{Op, apply}
use devbridge.Device.Journal.Evolution.{contacted}
use devbridge.Device.Card
use devbridge.Device.Card.{CardJournal, Transaction}
use devbridge.Device.Card.Trace.{Event, event, run, asks, times_asked}
use devbridge.Device.Card.AskedOnce.{asked_once}
use devbridge.Device.Card.Authorised.{IsAuthorised, authorisation_stays}
use devbridge.Device.Card.Balance
use devbridge.Device.Card.Balance.{Balances, has_safety, source_safety}
use devbridge.Device.Card.Balance.SafetyOnce
use devbridge.Device.Card.Balance.SafetyOnce.{times_granted, times_released, safety_once}

abbrev purchase : DeviceJob
purchase = record {
  id = pos 7;
  job_type = "card.purchase";
  client_uuid = "u";
  kasa_id = some (pos 3);
  kasa_name = "till";
  pos_order = "null";
  payload = "{}";
  created_at = at 0;
  claimed_at = at 0;
}

abbrev sale : Transaction
sale = record {
  terminal_ip = "10.0.0.8";
  amount_minor = pos 1250;
  baseline_seq = some (pos 41);
  tx_type = pos 1;
  target_seq = none;
}

abbrev no_cards : CardJournal
no_cards = record { jobs = empty; card_payments = [] }

abbrev held : List Event
held =
    Event.job (Op.insert_received 1 purchase)
    ∷ Event.job (Op.start_execution 2 (pos 7))
    ∷ Event.card_contact_of 3 (pos 7) sale
    ∷ []

abbrev ending : List Event
ending =
    Event.card_authorized 5 (pos 7) (pos 43) "late"
    ∷ Event.mark_card_auth_acked (pos 7) "ok"
    ∷ Event.job (Op.recover_after_restart 6)
    ∷ Event.card_contact_of 7 (pos 7) sale
    ∷ Event.job (Op.record_outcome 8 (pos 7) (Outcome.done "{}"))
    ∷ []

cards_run : Unit {0}
unfolding find insert update update_all starts_with get locate is_lan_job update_row update_device
    insert_received insert_job start_execution record_outcome recover_after_restart as_str apply
    event run asks times_asked Card.card_contact_of Card.card_authorized Card.card_payment
    Card.mark_card_auth_acked Card.update_payment
cards_run = tt

abbrev payment : CardJournal
payment = run held no_cards

authorised_first : (Card.card_authorized 4 (pos 7) (pos 42) "ok" payment).1 ≡ true
unfolding cards_run
authorised_first = refl

authorisation_stays_example : IsAuthorised (pos 7) 4 (pos 42) "ok" (
    Card.card_payment (pos 7) (run ending (Card.card_authorized 4 (pos 7) (pos 42) "ok" payment).0))
authorisation_stays_example =
    authorisation_stays (pos 7) 4 (pos 42) "ok" ending payment authorised_first (omega arith)

asked-ending : times_asked (pos 7) ending payment ≡ 0
unfolding cards_run
asked-ending = refl

asked_once_example :
    times_asked (pos 7) held no_cards + one_if (contacted (get (pos 7) no_cards.jobs)) ≤ 1
asked_once_example = asked_once 7 held no_cards (omega arith)

abbrev night : List SafetyOnce.Event
night =
    SafetyOnce.Event.card_balance_contact 1 "10.0.0.8" "2026-11-04" source_safety none
    ∷ SafetyOnce.Event.card_balance_contact 2 "10.0.0.8" "2026-11-04" source_safety none
    ∷ SafetyOnce.Event.card_balance_forget (pos 1)
    ∷ SafetyOnce.Event.card_balance_contact 3 "10.0.0.8" "2026-11-04" source_safety none
    ∷ []

abbrev no_balances : Balances
no_balances = record { rows = []; next = 0 }

granted-night : times_granted "10.0.0.8" "2026-11-04" night no_balances ≡ 2
unfolding times_granted SafetyOnce.grants SafetyOnce.event has_safety Balance.card_balance_contact
    Balance.card_balance_forget
granted-night = refl

safety_once_example :
    times_granted "10.0.0.8" "2026-11-04" night no_balances
      + one_if (has_safety "10.0.0.8" "2026-11-04" no_balances)
    ≤ 1 + times_released "10.0.0.8" "2026-11-04" night no_balances
safety_once_example = safety_once "10.0.0.8" "2026-11-04" night no_balances
