-- ===== src/Device/Portos/Executor.antt =====
-- The registration of a receipt and the reconciliation of one (device_jobs/portos/mod.rs of
-- crates/devbridge-client/src). Portos is an argument: a state, what a POST makes of it, and what it
-- answers.
pub mod Documented
pub mod Once
pub mod Posted
pub mod Sent
use devbridge.Common.{
  ℕ, String, Bool, true, false, not, Option, none, some, List, [], ◌∷◌, ◌==◌, if◌then◌else◌,
  is_some, nat_eq, any, string_eq, ◌&&◌,
}
use devbridge.Common.Int.{ℤ}
use devbridge.Common.Text.{concat}
use devbridge.Common.Json
use devbridge.Common.Json.{Json, Fields}
use devbridge.Device.Entry.{JournalEntry, Outcome}
use devbridge.Device.Journal.Store.{Journal}
use devbridge.Device.Journal.Operations.{mark_device_contact}
use devbridge.Device.Tasks.{Reconciliation}
use devbridge.Device.Portos.Operation.{ReceiptKind, path}
use devbridge.Device.Portos.Reply.{
  Reply, unreachable, lost, answer, Texts, problem_text, Lookup, found, not_found, classify_lookup,
}
use devbridge.Device.Portos.Register.{Via, receipt_result, register_outcome, or_null, pointer}

-- The service of a till: the answers about the receipt of a key, and about the requests that it did
-- not process yet, and a POST with its body.
pub record Portos (S : Type 0) : Type 0 where
  pub receipt : S → String → String → Reply
  pub unprocessed : S → String → String → Reply
  pub post : S → String → Json → Reply × S

-- A receipt job with the key and the register code that it names.
pub record Receipt : Type 0 where
  pub job_id : ℤ
  pub kind : ReceiptKind
  pub external_id : String
  pub code : String
  pub payload : Json

abbrev is_given : Option Json → Bool
is_given none = false
is_given (some v) = not (Json.is_null v)

-- The key is always the program's own.
unfoldable pub register_body : Json → String → Json
unfolding Json.member Json.is_null Json.entries
register_body payload external_id =
    let request = Json.object (
      Json.entries
        (("data", or_null (Json.member "data" payload))
          ∷ ("externalId", Json.text external_id)
          ∷ [])
        Fields.end) in
    let print = Json.member "print" payload in
    Json.object (
      Fields.field "request" request
        (if is_given print then Fields.field "print" (or_null print) Fields.end else Fields.end))

-- What became of a registration: its outcome, Portos, the journal, and what was posted.
pub record Registered (S : Type 0) : Type 0 where
  pub outcome : Outcome
  pub portos : S
  pub journal : Journal
  pub posted : Option Json

found_outcome : Texts → String → Option Json → Outcome
found_outcome t external_id none = Outcome.indeterminate (
    concat (
      "Portos found a receipt for externalId " ∷ external_id
      ∷ " but its answer is unreadable - reconciled, never registered again" ∷ []))
found_outcome t external_id (some result) = Outcome.done (t.json result)

module _ {S : Type 0} (t : Texts) (portos : Portos S) (now : ℕ) where
  abbrev unposted : Outcome → S → Journal → Registered S
  unposted outcome p s = record { outcome = outcome; portos = p; journal = s; posted = none }

  -- The contact is in the journal before the receipt leaves.
  unfoldable pub post_receipt : Receipt → S → Journal → Registered S
  unfolding register_body register_outcome path
  post_receipt r p s =
      let body = register_body r.payload r.external_id in
      let replied = portos.post p (path r.kind) body in
      record {
        outcome = register_outcome t replied.0 r.kind r.external_id;
        portos = replied.1;
        journal = (mark_device_contact now r.job_id s).0;
        posted = some body;
      }

  unfoldable pub looked_up : Receipt → Lookup → S → Journal → Registered S
  unfolding post_receipt found_outcome receipt_result
  looked_up r (found v) p s =
      unposted (found_outcome t r.external_id (receipt_result v r.external_id Via.lookup)) p s
  looked_up r not_found p s = post_receipt r p s
  looked_up r (Lookup.unreachable e) p s =
      unposted
        (Outcome.failed "portos_unreachable" (
          concat (
            "devbridge could not connect to Portos (" ∷ e
            ∷ ") - the receipt was not sent, nothing ran" ∷ [])))
        p s
  looked_up r (Lookup.failed e) p s =
      unposted
        (Outcome.failed "portos_lookup_failed" (
          concat (
            "Portos could not be asked whether externalId " ∷ r.external_id ∷ " is registered (" ∷ e
            ∷ ") - the receipt was not sent, nothing ran" ∷ [])))
        p s

  -- Register a receipt, unless Portos already has it.
  unfoldable pub register : Receipt → S → Journal → Registered S
  unfolding looked_up classify_lookup
  register r p s = looked_up r (classify_lookup t (portos.receipt p r.code r.external_id)) p s

-- Whether Portos lists a request with the key as not yet processed.
pub data Unprocessed : Type 0 where
  listed not_listed : Unprocessed
  failed : String → Unprocessed

abbrev is_text : String → Option Json → Bool
is_text expected none = false
is_text expected (some v) = elim (Json.as_str v) [ none ↦ false | some s ↦ s == expected ]

unprocessed_answer : Texts → String → ℕ → Json → Unprocessed
unfolding pointer Json.items Json.as_str problem_text
unprocessed_answer t external_id status (Json.array list) =
    if status == 204
    then not_listed
    else if status == 200
    then if any (λ r. is_text external_id (pointer ("request" ∷ "externalId" ∷ []) r))
        (Json.items list)
      then listed
      else not_listed
    else Unprocessed.failed (problem_text t status (Json.array list))
unprocessed_answer t external_id status body =
    if status == 204 then not_listed else Unprocessed.failed (problem_text t status body)

unfoldable pub classify_unprocessed : Texts → Reply → String → Unprocessed
unfolding unprocessed_answer
classify_unprocessed t (answer status body) external_id =
    unprocessed_answer t external_id status body
classify_unprocessed t (unreachable e) external_id = Unprocessed.failed e
classify_unprocessed t (lost e) external_id = Unprocessed.failed e

-- Why a receipt that was sent stays unknown although Portos has none with its key.
unfoldable pub sent_but_not_found_text : Unprocessed → String → String
sent_but_not_found_text listed external_id = concat (
    "Portos lists the request with externalId " ∷ external_id
    ∷ " as not processed yet - waiting for Portos" ∷ [])
sent_but_not_found_text not_listed external_id = concat (
    "devbridge sent the receipt but Portos has neither a receipt nor an unprocessed request with externalId "
    ∷ external_id
    ∷ "; Portos' documentation does not prove that a request whose answer was lost was never stored (it may still be inside Portos, or its index table may be incomplete) - a person must check Portos WebAdmin for externalId "
    ∷ external_id ∷ "; never register this sale again under another id" ∷ [])
sent_but_not_found_text (Unprocessed.failed e) external_id = concat (
    "Portos has no receipt with externalId " ∷ external_id
    ∷ "; its unprocessed list could not be read (" ∷ e ∷ ") - asked again later" ∷ [])

unfoldable pub reconciled_found : Texts → String → Option Json → Reconciliation
reconciled_found t external_id none = Reconciliation.still_unknown (
    concat (
      "Portos found a receipt for externalId " ∷ external_id
      ∷ " but its answer is unreadable - a person must check it in Portos" ∷ []))
reconciled_found t external_id (some result) = Reconciliation.done (t.json result)

abbrev not_asked : String → String → Reconciliation
not_asked external_id e = Reconciliation.still_unknown (
    concat (
      "Portos could not be asked about externalId " ∷ external_id ∷ " (" ∷ e
      ∷ ") - asked again later" ∷ []))

module _ {S : Type 0} (t : Texts) (portos : Portos S) where
  unfoldable pub reconcile_not_found : Receipt → Bool → S → Reconciliation
  unfolding sent_but_not_found_text classify_unprocessed
  reconcile_not_found r false p = Reconciliation.failed "not_executed" (
      concat (
        "devbridge never sent this receipt to Portos (the journal has no device contact) and Portos has no receipt with externalId "
        ∷ r.external_id ∷ " - nothing ran" ∷ []))
  reconcile_not_found r true p = Reconciliation.still_unknown (
      sent_but_not_found_text
        (classify_unprocessed t (portos.unprocessed p r.code r.external_id) r.external_id)
        r.external_id)

  unfoldable pub reconcile_looked_up : Receipt → Lookup → Bool → S → Reconciliation
  unfolding reconcile_not_found reconciled_found receipt_result
  reconcile_looked_up r (found v) contacted p =
      reconciled_found t r.external_id (receipt_result v r.external_id Via.reconcile)
  reconcile_looked_up r (Lookup.unreachable e) contacted p = not_asked r.external_id e
  reconcile_looked_up r (Lookup.failed e) contacted p = not_asked r.external_id e
  reconcile_looked_up r not_found contacted p = reconcile_not_found r contacted p

  -- Ask Portos about a receipt whose outcome is unknown; nothing is posted.
  unfoldable pub reconcile_receipt : Receipt → JournalEntry → S → Reconciliation
  unfolding reconcile_looked_up classify_lookup
  reconcile_receipt r entry p =
      reconcile_looked_up r (classify_lookup t (portos.receipt p r.code r.external_id))
        (is_some entry.device_contact_at) p
