-- ===== src/Device/Portos/Payload/Check.antt =====
-- The check of a payload before its job is journaled (device_jobs/portos/payload.rs and the `check` of
-- mod.rs of crates/devbridge-client/src).
use devbridge.Common.{
  ℕ, String, Bool, true, false, not, ◌&&◌, Option, none, some, List, [], ◌∷◌, ◌++◌, ◌==◌,
  if◌then◌else◌, is_some, leb, length, nat_eq, one_if, ◌+◌, ◌||◌,
}
use devbridge.Common.Int.{ℤ, pos}
use devbridge.Common.Text.{concat, join, codes}
use devbridge.Common.Json
use devbridge.Common.Json.{Json, Fields}
use devbridge.Device.Portos.Operation.{
  ReceiptKind, cash_register, invalid, deposit, withdraw, paragon, receipt_type, FiscalOp, register,
  print_copy, open_drawer, print_text, all_codes, is_digit, for_job_type, client_uuid_ok,
}
use devbridge.Device.Entry.{DeviceJob}
use devbridge.Device.Intake.{Rejection}
use devbridge.Device.Portos.Payload.Rules.{
  Std, fail, only_keys, string, required_text, optional_tokens, number, required_number,
  optional_number, one_of, object, party, at, cash_register_code, eq_ignore_ascii_case,
}
use devbridge.Device.Portos.Payload.Receipt.{
  path, print_at, check_paragon, check_items, check_payments,
}
use devbridge.Device.Portos.Payload.Print.{check_print_text}

type_at : ReceiptKind → Option Json → List String
unfolding fail receipt_type eq_ignore_ascii_case path
type_at kind none = []
type_at kind (some Json.null) = []
type_at kind (some (Json.text s)) =
    if eq_ignore_ascii_case s (receipt_type kind)
    then []
    else fail (at path "receiptType")
        (concat ("must be " ∷ receipt_type kind ∷ " (or left out)" ∷ []))
type_at kind (some _) =
    fail (at path "receiptType") (concat ("must be " ∷ receipt_type kind ∷ " (or left out)" ∷ []))

check_amount : Std → Fields → List String
unfolding only_keys number path Json.keys
check_amount std data_ =
    only_keys path
      ("amount" ∷ "receiptType" ∷ "headerText" ∷ "footerText" ∷ "cashRegisterCode" ∷ [])
      (Json.keys data_)
    ++ number std data_ path "amount" (required_number 2)

check_sale : Std → List String → Fields → List String
unfolding only_keys number check_items check_payments path Json.keys Json.get
check_sale std more data_ =
    only_keys path
      ("items" ∷ "payments" ∷ "roundingAmount" ∷ "receiptType" ∷ "headerText" ∷ "footerText"
        ∷ "cashRegisterCode" ∷ more)
      (Json.keys data_)
    ++ (number std data_ path "roundingAmount" (optional_number 2)
        ++ (check_items std (at path "items") (Json.get "items" data_)
            ++ check_payments std (at path "payments") (Json.get "payments" data_)))

check_kind : Std → ℕ → ReceiptKind → Fields → List String
unfolding check_amount check_sale party check_paragon path
check_kind std now deposit data_ = check_amount std data_
check_kind std now withdraw data_ = check_amount std data_
check_kind std now cash_register data_ =
    party std data_ path "customer" ("ICO" ∷ "DIC" ∷ "ICDPH" ∷ "Other" ∷ [])
    ++ check_sale std ("customer" ∷ []) data_
check_kind std now paragon data_ =
    check_paragon std now data_ ++ check_sale std ("issueDate" ∷ "paragonNumber" ∷ []) data_
check_kind std now invalid data_ = check_sale std [] data_

check_data : Std → ℕ → ReceiptKind → Fields → List String
unfolding cash_register_code string type_at check_kind path Json.get
check_data std now kind data_ =
    cash_register_code data_ path "cashRegisterCode"
    ++ (string std data_ path "headerText" (optional_tokens 2000)
        ++ (string std data_ path "footerText" (optional_tokens 2000)
            ++ (type_at kind (Json.get "receiptType" data_) ++ check_kind std now kind data_)))

data_at : Std → ℕ → ReceiptKind → Option Json → List String
unfolding fail object check_data path
data_at std now kind none = fail path "is required"
data_at std now kind (some v) = object v path (check_data std now kind)

unfoldable pub check_register : Std → ℕ → ReceiptKind → Fields → List String
unfolding only_keys print_at data_at Json.keys Json.get
check_register std now kind obj =
    only_keys "payload" ("data" ∷ "print" ∷ []) (Json.keys obj)
    ++ (print_at kind (Json.get "print" obj) ++ data_at std now kind (Json.get "data" obj))

abbrev has : String → Fields → Bool
has key obj = is_some (Json.get key obj)

hex_digit : ℕ → Bool
unfolding is_digit
hex_digit c = is_digit c || (leb 65 c && leb c 70) || (leb 97 c && leb c 102)

-- `split('-')`.
groups : List ℕ → List ℕ → List (List ℕ)
groups current [] = current ∷ []
groups current (c ∷ cs) = elim (c == 45) [
  | true ↦ current ∷ groups [] cs
  | false ↦ groups (current ++ c ∷ []) cs
]

of_lengths : List ℕ → List (List ℕ) → Bool
unfolding hex_digit all_codes
of_lengths [] [] = true
of_lengths (n ∷ ns) (g ∷ gs) = length g == n && all_codes hex_digit g && of_lengths ns gs
of_lengths _ _ = false

unfoldable pub uuid_ok : String → Bool
unfolding groups of_lengths codes
uuid_ok s = of_lengths (8 ∷ 4 ∷ 4 ∷ 4 ∷ 12 ∷ []) (groups [] (codes s))

id_at : Option Json → List String
unfolding fail uuid_ok
id_at (some (Json.text s)) =
    if uuid_ok s then [] else fail "payload.id" "must be the Portos request id (a UUID)"
id_at _ = fail "payload.id" "must be the Portos request id (a UUID)"

-- A whole number of 64 bits between the limits; both are positive.
within : ℕ → ℕ → Option ℤ → Bool
within low high (some (pos n)) = leb low n && leb n high
within low high _ = false

abbrev i64_of : Option Json → Option ℤ
i64_of none = none
i64_of (some v) = Json.as_i64 v

whole_number : Std → Fields → String → ℕ → ℕ → List String
unfolding fail within Json.get Json.as_i64
whole_number std obj key low high =
    if within low high (i64_of (Json.get key obj))
    then []
    else fail (at "payload" key)
        (concat ("must be a whole number between " ∷ std.show low ∷ " and " ∷ std.show high ∷ []))

-- The receipt is named exactly one way.
copy_ways : Fields → ℕ
unfolding Json.get
copy_ways obj =
    one_if (has "externalId" obj)
    + one_if (has "id" obj)
    + one_if (has "year" obj || has "month" obj || has "receiptNumber" obj)

named_copy : Std → Fields → List String
unfolding string id_at whole_number Json.get
named_copy std obj =
    if has "externalId" obj
    then string std obj "payload" "externalId" (required_text 128)
    else if has "id" obj
    then id_at (Json.get "id" obj)
    else whole_number std obj "year" 2019 9999
      ++ (whole_number std obj "month" 1 12 ++ whole_number std obj "receiptNumber" 1 4294967295)

check_print_copy : Std → Fields → List String
unfolding only_keys cash_register_code copy_ways named_copy fail Json.keys
check_print_copy std obj =
    only_keys "payload"
      ("cashRegisterCode" ∷ "externalId" ∷ "id" ∷ "year" ∷ "month" ∷ "receiptNumber" ∷ [])
      (Json.keys obj)
    ++ (cash_register_code obj "payload" "cashRegisterCode"
        ++ (if copy_ways obj == 1
            then named_copy std obj
            else fail "payload"
                "must name the receipt exactly one way: externalId, id, or year + month + receiptNumber"))

unfoldable pub check_op : Std → ℕ → FiscalOp → Fields → List String
unfolding check_register check_print_copy only_keys one_of check_print_text Json.keys
check_op std now (register kind) obj = check_register std now kind obj
check_op std now print_copy obj = check_print_copy std obj
check_op std now open_drawer obj =
    only_keys "payload" ("pin" ∷ []) (Json.keys obj)
    ++ one_of obj "payload" "pin" ("Pin2" ∷ "Pin5" ∷ []) false
check_op std now print_text obj = check_print_text std obj

-- The problems of a payload; none of them where it is accepted.
unfoldable pub check_payload : Std → ℕ → FiscalOp → Json → List String
unfolding object check_op
check_payload std now op payload = object payload "payload" (check_op std now op)

no_operation : String → Rejection
no_operation job_type = record {
  code = "unsupported";
  text = concat (
      "the Portos executor has no operation for job type '" ∷ job_type
      ∷ "' - Portos was not contacted, nothing ran" ∷ []);
}

rejected_for : List String → Option Rejection
unfolding join
rejected_for [] = none
rejected_for problems = some (record {
  code = "bad_payload";
  text = concat (join "; " problems ∷ " - Portos was not contacted, nothing ran" ∷ []);
})

is_receipt : FiscalOp → Bool
is_receipt (register kind) = true
is_receipt _ = false

checked : Std → ℕ → DeviceJob → Json → Option FiscalOp → Option Rejection
unfolding no_operation client_uuid_ok rejected_for check_payload is_receipt
checked std now job payload none = some (no_operation job.job_type)
checked std now job payload (some op) =
    if not (is_some job.kasa_id)
    then some (record {
      code = "no_kasa";
      text = "the job names no till (kasa) - devbridge cannot choose its Portos, nothing ran";
    })
    else if is_receipt op && not (client_uuid_ok job.client_uuid)
    then some (record {
      code = "bad_client_uuid";
      text =
          "client_uuid must match [A-Za-z0-9_-]{1,64} (it is part of the receipt's externalId) - Portos was not contacted, nothing ran";
    })
    else rejected_for (check_payload std now op payload)

-- The executor's own check of a job; `payload` is its payload, read as JSON.
unfoldable pub check : Std → ℕ → DeviceJob → Json → Option Rejection
unfolding checked for_job_type
check std now job payload = checked std now job payload (for_job_type job.job_type)
