-- ===== src/Device/Portos/Payload/Receipt.antt =====
-- The payload of a receipt (device_jobs/portos/payload.rs of crates/devbridge-client/src): the print
-- context, the data of each kind, the items and the payments.
use devbridge.Common.{
  ℕ, ◌+◌, String, Bool, true, false, ◌&&◌, Option, none, some, List, [], ◌∷◌, ◌++◌, if◌then◌else◌,
  leb, ltb,
}
use devbridge.Common.Text.{concat}
use devbridge.Common.Json
use devbridge.Common.Json.{Json, Fields}
use devbridge.Device.Portos.Operation.{ReceiptKind, paragon}
use devbridge.Device.Portos.Payload.Rules.{
  Std, fail, only_keys, string, required_text, optional_text, optional_tokens, number,
  required_number, optional_number, one_of, object, party, at,
}

unfoldable pub path : String
path = "payload.data"

options : Option Json → List String
unfolding object
options none = []
options (some Json.null) = []
options (some v) = object v "payload.print.options" (λ o. [])

print_context : Json → List String
unfolding object only_keys one_of options Json.keys Json.get
print_context print = object print "payload.print" (λ p.
    only_keys "payload.print" ("printerName" ∷ "options" ∷ []) (Json.keys p)
    ++ (one_of p "payload.print" "printerName" ("pos" ∷ "pdf" ∷ "email" ∷ []) true
        ++ options (Json.get "options" p)))

-- A paragón takes no print context.
unfoldable pub print_at : ReceiptKind → Option Json → List String
unfolding print_context fail
print_at kind none = []
print_at kind (some Json.null) = []
print_at paragon (some v) =
    fail "payload.print" "is not allowed for a paragon (a paragón takes no print context)"
print_at kind (some v) = print_context v

date_format : String
date_format =
    "must be a date and time with its UTC offset (RFC 3339, e.g. 2026-10-23T19:00:22+02:00)"

written_at : ℕ → Option ℕ → List String → List String → List String
written_at now none bad late = bad
written_at now (some written) bad late = if ltb now written then late else []

-- When a paragón was written: with its offset, and not later than `now`.
issue_date : Std → ℕ → String → Option Json → List String
unfolding fail date_format written_at
issue_date std now field none = fail field "is required"
issue_date std now field (some Json.null) = fail field "is required"
issue_date std now field (some (Json.text s)) =
    written_at now (std.parse_time s) (fail field date_format)
      (fail field "must not be later than now (the store PC's clock)")
issue_date std now field (some _) = fail field date_format

in_range : ℕ → ℕ → Option ℕ → Bool
in_range low high none = false
in_range low high (some n) = leb low n && leb n high

paragon_number : Std → String → Option Json → List String
unfolding fail in_range Json.as_u64
paragon_number std field none = fail field "is required"
paragon_number std field (some Json.null) = fail field "is required"
paragon_number std field (some v) =
    if in_range 1 4294967295 (Json.as_u64 v)
    then []
    else fail field (concat ("must be a whole number between 1 and " ∷ std.show 4294967295 ∷ []))

unfoldable pub check_paragon : Std → ℕ → Fields → List String
unfolding issue_date paragon_number Json.get path
check_paragon std now data_ =
    issue_date std now (at path "issueDate") (Json.get "issueDate" data_)
    ++ paragon_number std (at path "paragonNumber") (Json.get "paragonNumber" data_)

-- The element of a list, by its position.
indexed : Std → String → ℕ → String
indexed std field i = concat (field ∷ "[" ∷ std.show i ∷ "]" ∷ [])

quantity : Std → String → Option Json → List String
unfolding fail object only_keys number string Json.keys
quantity std qpath none = fail qpath "is required"
quantity std qpath (some Json.null) = fail qpath "is required"
quantity std qpath (some v) = object v qpath (λ q.
    only_keys qpath ("amount" ∷ "unit" ∷ []) (Json.keys q)
    ++ (number std q qpath "amount" (record (required_number 4) { non_negative = true })
        ++ string std q qpath "unit" (optional_text 3)))

item_keys : List String
item_keys =
    "type" ∷ "name" ∷ "price" ∷ "unitPrice" ∷ "quantity" ∷ "referenceReceiptId" ∷ "vatRate"
    ∷ "specialRegulation" ∷ "voucherNumber" ∷ "seller" ∷ "description" ∷ []

item_types : List String
item_types =
    "Positive" ∷ "ReturnedContainer" ∷ "Returned" ∷ "Correction" ∷ "Discount" ∷ "Advance"
    ∷ "Voucher" ∷ []

tax_free_reasons : List String
tax_free_reasons =
    "VATReverseCharge" ∷ "VATExemptionGood" ∷ "TravelAgency" ∷ "UsedGood" ∷ "Artwork"
    ∷ "CollectiblesAndAntiques" ∷ []

check_item : Std → String → Fields → List String
unfolding only_keys one_of string number party quantity item_keys item_types tax_free_reasons
    Json.keys Json.get
check_item std ipath it =
    only_keys ipath item_keys (Json.keys it)
    ++ (one_of it ipath "type" item_types true
        ++ (string std it ipath "name" (required_text 255)
            ++ (number std it ipath "price" (required_number 2)
                ++ (number std it ipath "unitPrice" (required_number 6)
                    ++ (number std it ipath "vatRate"
                          (record (optional_number 2) { nullable = true })
                        ++ (string std it ipath "referenceReceiptId" (optional_text 255)
                            ++ (one_of it ipath "specialRegulation" tax_free_reasons false
                                ++ (string std it ipath "voucherNumber" (optional_text 50)
                                    ++ (string std it ipath "description" (optional_tokens 2000)
                                        ++ (party std it ipath "seller" ("DIC" ∷ "ICDPH" ∷ [])
                                            ++ quantity std (at ipath "quantity")
                                                (Json.get "quantity" it)))))))))))

items_from : Std → String → ℕ → List Json → List String
unfolding object check_item indexed
items_from std field i [] = []
items_from std field i (item ∷ rest) =
    let ipath = indexed std field i in
    object item ipath (check_item std ipath) ++ items_from std field (i + 1) rest

unfoldable pub check_items : Std → String → Option Json → List String
unfolding fail items_from Json.items
check_items std field (some (Json.array Json.nil)) = fail field "must not be empty"
check_items std field (some (Json.array list)) = items_from std field 0 (Json.items list)
check_items std field none = fail field "is required"
check_items std field (some Json.null) = fail field "is required"
check_items std field (some _) = fail field "must be a list"

check_payment : Std → String → Fields → List String
unfolding only_keys string number Json.keys
check_payment std ppath p =
    only_keys ppath ("name" ∷ "amount" ∷ []) (Json.keys p)
    ++ (string std p ppath "name" (required_text 255)
        ++ number std p ppath "amount" (required_number 2))

payments_from : Std → String → ℕ → List Json → List String
unfolding object check_payment indexed
payments_from std field i [] = []
payments_from std field i (payment ∷ rest) =
    let ppath = indexed std field i in
    object payment ppath (check_payment std ppath) ++ payments_from std field (i + 1) rest

unfoldable pub check_payments : Std → String → Option Json → List String
unfolding fail payments_from Json.items
check_payments std field none = []
check_payments std field (some Json.null) = []
check_payments std field (some (Json.array list)) = payments_from std field 0 (Json.items list)
check_payments std field (some _) = fail field "must be a list"
