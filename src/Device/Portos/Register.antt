-- ===== src/Device/Portos/Register.antt =====
-- What an answer of Portos about a receipt is to its job (device_jobs/portos/outcome.rs of
-- crates/devbridge-client/src).
use devbridge.Common.{
  ℕ, String, Bool, true, false, Option, none, some, List, [], ◌∷◌, ◌==◌, if◌then◌else◌, nat_eq,
  string_eq,
}
use devbridge.Common.Int.{pos}
use devbridge.Common.Text.{concat}
use devbridge.Common.Json
use devbridge.Common.Json.{Json, Fields}
use devbridge.Device.Entry.{Outcome}
use devbridge.Device.Portos.Operation.{ReceiptKind, path, receipt_type}
use devbridge.Device.Portos.Reply.{
  Reply, unreachable, lost, answer, Texts, problem_text, is_validation, is_missing_endpoint,
  is_success,
}

-- Where a receipt result came from.
pub data Via : Type 0 where
  register lookup reconcile : Via

unfoldable pub as_str : Via → String
as_str register = "register"
as_str lookup = "lookup"
as_str reconcile = "reconcile"

abbrev is_register : Via → Bool
is_register register = true
is_register _ = false

abbrev text_of : Option Json → Option String
text_of none = none
text_of (some v) = Json.as_str v

abbrev names : String → Via → Option String → Bool
names external_id via none = is_register via
names external_id via (some theirs) = theirs == external_id

-- A receipt that is found must name the key; the answer to the own registration may leave it out.
unfoldable pub external_id_matches : Option Json → String → Via → Bool
unfolding Json.as_str
external_id_matches theirs external_id via = names external_id via (text_of theirs)

receipt_state_of : Option Json → String
receipt_state_of (some (Json.bool true)) = "online"
receipt_state_of (some (Json.bool false)) = "rejected"
receipt_state_of _ = "offline"

unfoldable pub receipt_state : Json → String
unfolding Json.member receipt_state_of
receipt_state result = receipt_state_of (Json.member "isSuccessful" result)

abbrev pub or_null : Option Json → Json
or_null none = Json.null
or_null (some v) = v

-- `Value::pointer` on a path of keys.
unfoldable pub pointer : List String → Json → Option Json
unfolding Json.member
pointer [] v = some v
pointer (key ∷ keys) v = elim (Json.member key v) [ none ↦ none | some w ↦ pointer keys w ]

abbrev number_of : Option Json → Option Json
number_of none = none
number_of (some v) = if Json.is_number v then some v else none

paragon_field : Option Json → Fields
paragon_field none = Fields.end
paragon_field (some n) = Fields.field "paragon_number" n Fields.end

receipt_object : Json → Json → Json → String → Json → String → Via → Json
unfolding receipt_state as_str pointer paragon_field Json.member Json.is_number Json.entries
receipt_object result request data_ okp receipt_number external_id via =
    let state = receipt_state result in
    let at = λ (key : String). or_null (Json.member key data_) in
    Json.object (
      Json.entries
        (("device", Json.text "portos")
          ∷ ("via", Json.text (as_str via))
          ∷ ("external_id", Json.text external_id)
          ∷ ("state", Json.text state)
          ∷ ("is_offline", Json.bool (state == "offline"))
          ∷ ("uid", or_null (pointer ("response" ∷ "data" ∷ "id" ∷ []) result))
          ∷ ("okp", Json.text okp)
          ∷ ("receipt_number", receipt_number)
          ∷ ("issue_date", at "issueDate")
          ∷ ("receipt_type", at "receiptType")
          ∷ ("amount", at "amount")
          ∷ ("rounding_amount", at "roundingAmount")
          ∷ ("cash_register_code", at "cashRegisterCode")
          ∷ ("portos_request_id", or_null (Json.member "id" request))
          ∷ ("process_date", or_null (pointer ("response" ∷ "processDate" ∷ []) result))
          ∷ ("ekasa_error", or_null (Json.member "error" result))
          ∷ [])
        (paragon_field (number_of (Json.member "paragonNumber" data_))))

receipt_of : Json → Json → Json → Option String → Option Json → String → Via → Option Json
unfolding receipt_object external_id_matches Json.member
receipt_of result request data_ (some okp) (some receipt_number) external_id via =
    if external_id_matches (Json.member "externalId" request) external_id via
    then some (receipt_object result request data_ okp receipt_number external_id via)
    else none
receipt_of result request data_ _ _ external_id via = none

receipt_in : Json → Json → Option Json → String → Via → Option Json
unfolding receipt_of Json.member Json.as_str Json.is_number
receipt_in result request none external_id via = none
receipt_in result request (some data_) external_id via =
    receipt_of result request data_ (text_of (Json.member "okp" data_))
      (number_of (Json.member "receiptNumber" data_)) external_id via

receipt_from : Json → Option Json → String → Via → Option Json
unfolding receipt_in Json.member
receipt_from result none external_id via = none
receipt_from result (some request) external_id via =
    receipt_in result request (Json.member "data" request) external_id via

-- The job result of a Portos answer; nothing where it is not a receipt, or another key's.
unfoldable pub receipt_result : Json → String → Via → Option Json
unfolding receipt_from Json.member
receipt_result result external_id via =
    receipt_from result (Json.member "request" result) external_id via

unfoldable pub done_or : Texts → String → Option Json → Outcome
done_or t why none = Outcome.indeterminate why
done_or t why (some result) = Outcome.done (t.json result)

unfoldable pub register_answer : Texts → ℕ → Json → ReceiptKind → String → Outcome
unfolding done_or is_success receipt_result is_validation is_missing_endpoint problem_text
    receipt_type path
register_answer t status body kind external_id =
    let reconciled =
      concat ("reconciled by externalId " ∷ external_id ∷ ", never registered again" ∷ []) in
    if is_success status
    then done_or t
        (concat (
          "Portos answered HTTP "
          ∷ t.show (pos status)
          ∷ " but not with the receipt of externalId "
          ∷ external_id
          ∷ " - "
          ∷ reconciled
          ∷ []))
        (receipt_result body external_id register)
    else if is_validation status body
    then Outcome.failed "portos_validation" (
        concat (
          "Portos refused the "
          ∷ receipt_type kind
          ∷ " receipt as invalid ("
          ∷ problem_text t status body
          ∷ ") - nothing was registered"
          ∷ []))
    else if status == 401
    then Outcome.failed "portos_unauthenticated" (
        concat (
          "Portos requires authentication ("
          ∷ problem_text t 401 body
          ∷ ") - nothing was registered"
          ∷ []))
    else if is_missing_endpoint status body
    then Outcome.failed "portos_endpoint_missing" (
        concat (
          "this Portos has no "
          ∷ path kind
          ∷ " ("
          ∷ problem_text t status body
          ∷ ") - it cannot register "
          ∷ receipt_type kind
          ∷ " receipts; nothing was registered"
          ∷ []))
    else Outcome.indeterminate (
        concat (
          "Portos answered "
          ∷ problem_text t status body
          ∷ " - the receipt may be registered (a print error comes after registration); "
          ∷ reconciled
          ∷ []))

-- What the answer to the registration is to the job.
unfoldable pub register_outcome : Texts → Reply → ReceiptKind → String → Outcome
unfolding register_answer
register_outcome t (unreachable e) kind external_id = Outcome.failed "portos_unreachable" (
    concat (
      "devbridge could not connect to Portos (" ∷ e ∷ ") - the receipt was not sent, nothing ran"
      ∷ []))
register_outcome t (lost e) kind external_id = Outcome.indeterminate (
    concat (
      "no answer from Portos after the receipt was sent (" ∷ e
      ∷ ") - it may be registered; reconciled by externalId " ∷ external_id
      ∷ ", never registered again" ∷ []))
register_outcome t (answer status body) kind external_id =
    register_answer t status body kind external_id
