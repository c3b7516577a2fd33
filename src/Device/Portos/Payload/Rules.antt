-- ===== src/Device/Portos/Payload/Rules.antt =====
-- The rules that a field of a payload may break, with the problems that they add: the methods of
-- `Checker` (device_jobs/portos/payload.rs of crates/devbridge-client/src). A checker is the list of
-- the problems that its calls add, in their order. What is computed with floats is an argument.
use devbridge.Common.{
  ℕ, String, Bool, true, false, not, ◌&&◌, ◌||◌, Option, none, some, List, [], ◌∷◌, ◌++◌, ◌==◌,
  if◌then◌else◌, leb, ltb, length, any, nat_eq, string_eq, ◌+◌,
}
use devbridge.Common.Text.{concat, join, codes}
use devbridge.Common.Json
use devbridge.Common.Json.{Json, Fields, Number}
use devbridge.Device.Portos.Operation.{all_codes, cash_register_code_ok}

-- What the standard library computes: decimal places and sizes of numbers, times, and decimal texts.
pub record Std : Type 0 where
  -- At most so many decimal places as written, and finite.
  pub has_at_most_decimals : Number → ℕ → Bool
  -- An absolute value above 10 000 000.
  pub too_large : Number → Bool
  pub negative : Number → Bool
  pub show : ℕ → String
  -- `DateTime::parse_from_rfc3339`.
  pub parse_time : String → Option ℕ

unfoldable pub fail : String → String → List String
fail path rule = concat (path ∷ " " ∷ rule ∷ []) ∷ []

unfoldable pub only_keys : String → List String → List String → List String
unfolding fail
only_keys path allowed [] = []
only_keys path allowed (key ∷ keys) =
    let rest = only_keys path allowed keys in
    if any (λ a. a == key) allowed
    then rest
    else fail (concat (path ∷ "." ∷ key ∷ [])) "is not allowed" ++ rest

-- `char::is_control`, `char::is_whitespace`.
unfoldable pub is_control : ℕ → Bool
is_control c = ltb c 32 || (leb 127 c && ltb c 160)

is_whitespace : ℕ → Bool
is_whitespace c =
    (leb 9 c && leb c 13)
    || c == 32
    || c == 0x85
    || c == 0xA0
    || c == 0x1680
    || (leb 0x2000 c && leb c 0x200A)
    || c == 0x2028
    || c == 0x2029
    || c == 0x202F
    || c == 0x205F
    || c == 0x3000

-- `s.trim().is_empty()`.
unfoldable pub is_blank : String → Bool
unfolding codes all_codes is_whitespace
is_blank s = all_codes is_whitespace (codes s)

pub record TextRule : Type 0 where
  pub required : Bool
  pub max : ℕ
  pub printable : Bool

abbrev pub required_text : ℕ → TextRule
required_text max = record { required = true; max = max; printable = true }

abbrev pub optional_text : ℕ → TextRule
optional_text max = record { required = false; max = max; printable = true }

abbrev pub optional_tokens : ℕ → TextRule
optional_tokens max = record { required = false; max = max; printable = false }

abbrev absent : String → Bool → List String
absent field required = if required then fail field "is required" else []

string_value : Std → String → TextRule → String → List String
unfolding fail is_blank codes is_control
string_value std field rule s =
    if is_blank s
    then fail field "must not be empty"
    else if ltb rule.max (length (codes s))
    then fail field (concat ("must have at most " ∷ std.show rule.max ∷ " characters" ∷ []))
    else if rule.printable && any is_control (codes s)
    then fail field "must not contain control characters"
    else []

string_at : Std → String → TextRule → Option Json → List String
unfolding fail string_value
string_at std field rule none = absent field rule.required
string_at std field rule (some Json.null) = absent field rule.required
string_at std field rule (some (Json.text s)) = string_value std field rule s
string_at std field rule (some _) = fail field "must be a string"

abbrev pub at : String → String → String
at path key = concat (path ∷ "." ∷ key ∷ [])

-- A string of one to `max` characters.
unfoldable pub string : Std → Fields → String → String → TextRule → List String
unfolding string_at Json.get
string std obj path key rule = string_at std (at path key) rule (Json.get key obj)

pub record NumberRule : Type 0 where
  pub required : Bool
  pub nullable : Bool
  pub places : ℕ
  pub non_negative : Bool

abbrev pub required_number : ℕ → NumberRule
required_number places = record {
  required = true;
  nullable = false;
  places = places;
  non_negative = false;
}

abbrev pub optional_number : ℕ → NumberRule
optional_number places = record (required_number places) { required = false }

number_value : Std → String → NumberRule → Number → List String
unfolding fail
number_value std field rule n =
    if not (std.has_at_most_decimals n rule.places)
    then fail field (concat ("must have at most " ∷ std.show rule.places ∷ " decimal places" ∷ []))
    else if std.too_large n || (rule.non_negative && std.negative n)
    then fail field (
        concat (
          "must be between "
          ∷ (if rule.non_negative then "0" else "-10000000")
          ∷ " and 10000000"
          ∷ []))
    else []

number_at : Std → String → NumberRule → Option Json → List String
unfolding fail number_value
number_at std field rule none = absent field rule.required
number_at std field rule (some Json.null) =
    if rule.nullable then [] else fail field "must be a number"
number_at std field rule (some (Json.number n)) = number_value std field rule n
number_at std field rule (some _) = fail field "must be a number"

-- A number within the limit, with at most so many decimal places.
unfoldable pub number : Std → Fields → String → String → NumberRule → List String
unfolding number_at Json.get
number std obj path key rule = number_at std (at path key) rule (Json.get key obj)

lower : ℕ → ℕ
lower c = if leb 65 c && leb c 90 then c + 32 else c

same_codes : List ℕ → List ℕ → Bool
unfolding lower
same_codes [] [] = true
same_codes (a ∷ as_) (b ∷ bs) = lower a == lower b && same_codes as_ bs
same_codes _ _ = false

unfoldable pub eq_ignore_ascii_case : String → String → Bool
unfolding codes same_codes
eq_ignore_ascii_case a b = same_codes (codes a) (codes b)

one_of_at : String → List String → Bool → Option Json → List String
unfolding fail eq_ignore_ascii_case join
one_of_at field allowed required none = absent field required
one_of_at field allowed required (some Json.null) = absent field required
one_of_at field allowed required (some (Json.text s)) =
    if any (λ a. eq_ignore_ascii_case a s) allowed
    then []
    else fail field (concat ("must be one of " ∷ join ", " allowed ∷ []))
one_of_at field allowed required (some _) =
    fail field (concat ("must be one of " ∷ join ", " allowed ∷ []))

-- One of `allowed`, whatever the case of its ASCII letters.
unfoldable pub one_of : Fields → String → String → List String → Bool → List String
unfolding one_of_at Json.get
one_of obj path key allowed required = one_of_at (at path key) allowed required (Json.get key obj)

-- What an object must meet, or that it is one.
unfoldable pub object : Json → String → (Fields → List String) → List String
unfolding fail
object (Json.object fields) path check = check fields
object _ path check = fail path "must be an object"

party_at : Std → String → List String → Option Json → List String
unfolding object only_keys string one_of Json.keys
party_at std field types none = []
party_at std field types (some Json.null) = []
party_at std field types (some v) = object v field (λ party.
    only_keys field ("id" ∷ "type" ∷ []) (Json.keys party)
    ++ (string std party field "id" (required_text 64) ++ one_of party field "type" types true))

-- An optional customer or seller.
unfoldable pub party : Std → Fields → String → String → List String → List String
unfolding party_at Json.get
party std obj path key types = party_at std (at path key) types (Json.get key obj)

code_at : String → Option Json → List String
unfolding fail cash_register_code_ok
code_at field none = fail field "is required"
code_at field (some Json.null) = fail field "is required"
code_at field (some (Json.text orp)) =
    if cash_register_code_ok orp
    then []
    else fail field "must be the 16-17 digit cash register (ORP) code"
code_at field (some _) = fail field "must be the 16-17 digit cash register (ORP) code"

unfoldable pub cash_register_code : Fields → String → String → List String
unfolding code_at Json.get
cash_register_code obj path key = code_at (at path key) (Json.get key obj)
