-- ===== src/Device/Portos/Control.antt =====
-- The requests that leave no fiscal record: the drawer, a copy and a printed text
-- (device_jobs/portos/outcome.rs and payload.rs of crates/devbridge-client/src), and the state of a
-- Portos for the heartbeat (portos/status.rs there).
use devbridge.Common.{
  ℕ, String, Bool, true, false, not, ◌&&◌, Option, none, some, List, [], ◌∷◌, ◌++◌, ◌==◌,
  if◌then◌else◌, leb, ltb, nat_eq, string_eq, ◌≡◌, refl, arith,
}
use devbridge.Common.Int.{pos}
use devbridge.Common.Text.{concat}
use devbridge.Common.Json
use devbridge.Common.Json.{Json, Fields, Number}
use devbridge.Device.Entry.{Outcome}
use devbridge.Device.Portos.Operation.{FiscalOp, open_drawer, print_text}
use devbridge.Device.Portos.Reply.{
  Reply, unreachable, lost, answer, Texts, problem_text, is_validation, is_missing_endpoint,
  is_success, is_not_found,
}

unfoldable pub is_print_text : FiscalOp → Bool
is_print_text print_text = true
is_print_text _ = false

what : FiscalOp → String
what open_drawer = "open the drawer"
what print_text = "print the text"
what _ = "print the receipt copy"

flag : FiscalOp → String
flag open_drawer = "opened"
flag _ = "printed"

abbrev is_true : Option Json → Bool
is_true (some (Json.bool b)) = b
is_true _ = false

abbrev or_null : Option Json → Json
or_null none = Json.null
or_null (some v) = v

unfoldable pub reports : FiscalOp → Json → Bool
unfolding Json.member flag
reports op body = is_true (Json.member (flag op) body)

failed_with : Texts → String → String → ℕ → Json → String → Outcome
unfolding problem_text
failed_with t code before status body after =
    Outcome.failed code (concat (before ∷ problem_text t status body ∷ after ∷ []))

unfoldable pub control_answer : Texts → ℕ → Json → FiscalOp → Outcome
unfolding is_print_text is_success reports is_not_found is_validation is_missing_endpoint what flag
    failed_with problem_text Json.member Json.entries
control_answer t status body op =
    if is_print_text op && is_success status && not (reports op body)
    then Outcome.failed "outcome_unknown_retry_safe" (
        concat (
          "Portos accepted the text but did not report it printed (HTTP "
          ∷ t.show (pos status)
          ∷ "; 202 = the printer was not ready, some models print later); no fiscal record, the till may simply retry"
          ∷ []))
    else if is_print_text op && leb 500 status
    then failed_with t "outcome_unknown_retry_safe" "Portos answered " status body
        " when asked to print the text; no fiscal record, the till may simply retry"
    else if is_success status
    then Outcome.done (
        t.json (
          Json.object (
            Json.entries
              (("device", Json.text "portos")
                ∷ (flag op, or_null (Json.member (flag op) body))
                ∷ ("printer_ready", Json.bool (status == 200))
                ∷ [])
              Fields.end)))
    else if is_not_found body
    then failed_with t "receipt_not_found" "Portos has no such receipt (" status body
        ") - nothing was printed"
    else if is_validation status body
    then failed_with t "portos_validation" "Portos refused the request as invalid (" status body
        ") - nothing ran"
    else if status == 401
    then failed_with t "portos_unauthenticated" "Portos requires authentication (" 401 body
        ") - nothing ran"
    else if is_missing_endpoint status body
    then failed_with t "portos_endpoint_missing"
        (concat ("this Portos cannot " ∷ what op ∷ " (" ∷ [])) status body ") - nothing ran"
    else if leb 400 status && ltb status 500
    then failed_with t "portos_refused" (concat ("Portos refused to " ∷ what op ∷ " (" ∷ [])) status
        body ") - nothing ran"
    else Outcome.indeterminate (
        concat ("Portos answered " ∷ problem_text t status body ∷ " when asked to " ∷ what op ∷ []))

-- What the answer to such a request is to its job.
unfoldable pub control_outcome : Texts → Reply → FiscalOp → Outcome
unfolding control_answer what
control_outcome t (unreachable e) op =
    Outcome.failed "portos_unreachable"
      (concat ("devbridge could not connect to Portos (" ∷ e ∷ ") - nothing ran" ∷ []))
control_outcome t (lost e) op =
    Outcome.indeterminate
      (concat ("no answer from Portos after asking it to " ∷ what op ∷ " (" ∷ e ∷ ")" ∷ []))
control_outcome t (answer status body) op = control_answer t status body op

retry_what : FiscalOp → String
retry_what open_drawer = "the drawer opened"
retry_what print_text = "the text was printed"
retry_what _ = "the receipt copy was printed"

unfoldable pub retry_safe_text : FiscalOp → String
unfolding retry_what
retry_safe_text op = concat (
    "devbridge cannot tell whether "
    ∷ retry_what op
    ∷ " (Portos never answered); it leaves no fiscal record, so the till may simply retry"
    ∷ [])

-- What such a request may reach: its path, its query and its body.
param : Texts → String → String → Json → List (String × String)
unfolding Json.member
param t key name payload = elim (Json.member key payload) [
  | some (Json.text s) ↦ (name, s) ∷ []
  | some (Json.number n) ↦ (name, t.json (Json.number n)) ∷ []
  | _ ↦ []
]

unfoldable pub copy_query : Texts → Json → List (String × String)
unfolding param
copy_query t payload =
    param t "cashRegisterCode" "CashRegisterCode" payload
    ++ (param t "externalId" "ExternalId" payload
        ++ (param t "id" "Id" payload
            ++ (param t "year" "Year" payload
                ++ (param t "month" "Month" payload
                    ++ param t "receiptNumber" "ReceiptNumber" payload))))

unfoldable pub drawer_query : Json → List (String × String)
unfolding Json.member
drawer_query payload = elim (Json.member "pin" payload) [
  | some (Json.text pin) ↦ ("pin", pin) ∷ []
  | _ ↦ []
]

abbrev pub is_done : Outcome → Bool
is_done (Outcome.done result) = true
is_done _ = false

-- An answer that says that the text was printed.
unfoldable pub says_printed : Reply → Bool
says_printed (answer status body) = is_success status && reports print_text body
says_printed _ = false

-- A text is reported as printed exactly where Portos accepted it and says that it was printed.
pub control_outcome-print_text :
    (t : Texts) (reply : Reply) → is_done (control_outcome t reply print_text) ≡ says_printed reply
unfolding control_outcome control_answer is_print_text says_printed failed_with
control_outcome-print_text t (unreachable e) = refl
control_outcome-print_text t (lost e) = refl
control_outcome-print_text t (answer status body) = ground arith
