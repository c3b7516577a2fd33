-- ===== src/Device/Portos/Operation.antt =====
-- What a `fiscal.*` job asks of Portos, and the key of its receipt (device_jobs/portos/payload.rs of
-- crates/devbridge-client/src). The digest is an argument.
use devbridge.Common.{
  ℕ, String, Bool, true, ◌&&◌, ◌||◌, Option, none, some, List, [], ◌∷◌, ◌==◌, if◌then◌else◌, leb,
  length, nat_eq, string_eq,
}
use devbridge.Common.Int.{ℤ}
use devbridge.Common.Text.{concat, take_chars, codes}

-- A receipt that Portos registers.
pub data ReceiptKind : Type 0 where
  cash_register invalid deposit withdraw paragon : ReceiptKind

unfoldable pub path : ReceiptKind → String
path cash_register = "/api/v1/requests/receipts/cash_register"
path invalid = "/api/v1/requests/receipts/invalid"
path deposit = "/api/v1/requests/receipts/deposit"
path withdraw = "/api/v1/requests/receipts/withdraw"
path paragon = "/api/v1/requests/receipts/paragon"

unfoldable pub receipt_type : ReceiptKind → String
receipt_type cash_register = "CashRegister"
receipt_type invalid = "Invalid"
receipt_type deposit = "Deposit"
receipt_type withdraw = "Withdraw"
receipt_type paragon = "Paragon"

pub data FiscalOp : Type 0 where
  register : ReceiptKind → FiscalOp
  print_copy open_drawer print_text : FiscalOp

unfoldable pub for_job_type : String → Option FiscalOp
for_job_type t =
    if t == "fiscal.cash_register"
    then some (register cash_register)
    else if t == "fiscal.invalid"
    then some (register invalid)
    else if t == "fiscal.deposit"
    then some (register deposit)
    else if t == "fiscal.withdraw"
    then some (register withdraw)
    else if t == "fiscal.paragon"
    then some (register paragon)
    else if t == "fiscal.print_copy"
    then some print_copy
    else if t == "fiscal.open_drawer"
    then some open_drawer
    else if t == "fiscal.print_text"
    then some print_text
    else none

-- The key of a receipt: `digest` is the hexadecimal SHA-256 of a text, `show` a decimal number.
unfoldable pub external_id : (String → String) → (ℤ → String) → ℤ → String → String
external_id digest show kasa_id client_uuid =
    concat ("dbj-" ∷ take_chars 32 (digest (concat (show kasa_id ∷ ":" ∷ client_uuid ∷ []))) ∷ [])

unfoldable pub is_digit : ℕ → Bool
is_digit c = leb 48 c && leb c 57

unfoldable pub is_alphanumeric : ℕ → Bool
unfolding is_digit
is_alphanumeric c = is_digit c || (leb 65 c && leb c 90) || (leb 97 c && leb c 122)

unfoldable pub all_codes : (ℕ → Bool) → List ℕ → Bool
all_codes test [] = true
all_codes test (c ∷ cs) = test c && all_codes test cs

-- A text with a character outside ASCII has a byte that the test refuses, and so has its code point.
unfoldable pub client_uuid_ok : String → Bool
unfolding codes is_alphanumeric all_codes
client_uuid_ok client_uuid =
    let cs = codes client_uuid in
    leb 1 (length cs)
    && leb (length cs) 64
    && all_codes (λ c. is_alphanumeric c || c == 95 || c == 45) cs

unfoldable pub cash_register_code_ok : String → Bool
unfolding codes is_digit all_codes
cash_register_code_ok orp =
    let cs = codes orp in leb 16 (length cs) && leb (length cs) 17 && all_codes is_digit cs
