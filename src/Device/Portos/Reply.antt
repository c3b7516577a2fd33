-- ===== src/Device/Portos/Reply.antt =====
-- What one call to Portos came back with, and what of it is known (device_jobs/portos/http.rs and
-- outcome.rs of crates/devbridge-client/src).
use devbridge.Common.{
  ℕ, String, Bool, false, not, ◌&&◌, ◌||◌, Option, none, some, List, [], ◌∷◌, ◌++◌, ◌==◌,
  if◌then◌else◌, is_some, leb, ltb, nat_eq, string_eq,
}
use devbridge.Common.Int.{ℤ, pos, negsuc, int_eq}
use devbridge.Common.Text.{concat, join, take_chars}
use devbridge.Common.Json
use devbridge.Common.Json.{Json, Fields, Items}

-- `unreachable`: nothing was sent. `lost`: Portos may have acted, and its answer is not known.
pub data Reply : Type 0 where
  unreachable lost : String → Reply
  answer : ℕ → Json → Reply

-- The texts of integers and of JSON values, as `format!` and `serde_json` make them.
pub record Texts : Type 0 where
  pub show : ℤ → String
  pub json : Json → String

unfoldable pub int_of : Option Json → Option ℤ
unfolding Json.as_i64
int_of none = none
int_of (some v) = Json.as_i64 v

unfoldable pub problem_code : Json → Option ℤ
unfolding Json.member int_of
problem_code body = int_of (Json.member "code" body)

code_part : Texts → Option ℤ → List String
code_part t none = []
code_part t (some code) = concat ("code " ∷ t.show code ∷ []) ∷ []

text_part : Option Json → List String
text_part (some (Json.text s)) = if s == "" then [] else s ∷ []
text_part _ = []

strings : List Json → List String
strings [] = []
strings (Json.text s ∷ rest) = s ∷ strings rest
strings (_ ∷ rest) = strings rest

messages : Json → List String
unfolding strings Json.items
messages (Json.array list) = strings (Json.items list)
messages _ = []

error_parts : Fields → List String
unfolding messages join
error_parts Fields.end = []
error_parts (Fields.field name v rest) =
    concat (name ∷ ": " ∷ join " " (messages v) ∷ []) ∷ error_parts rest

errors_part : Option Json → List String
unfolding error_parts
errors_part (some (Json.object fields)) = error_parts fields
errors_part _ = []

-- A short text of a Portos problem answer, at most 600 characters.
unfoldable pub problem_text : Texts → ℕ → Json → String
unfolding problem_code code_part text_part errors_part Json.member
problem_text t status body = take_chars 600 (
    join " | " (
      concat ("HTTP " ∷ t.show (pos status) ∷ [])
      ∷ (code_part t (problem_code body)
          ++ (text_part (Json.member "title" body)
              ++ (text_part (Json.member "detail" body)
                  ++ errors_part (Json.member "errors" body))))))

abbrev pub is_code : ℤ → Option ℤ → Bool
is_code expected none = false
is_code expected (some code) = code == expected

-- Portos checks a request before it stores anything: 400 or 422, with no code or -900.
unfoldable pub is_validation : ℕ → Json → Bool
unfolding problem_code
is_validation status body =
    (status == 400 || status == 422)
    && (not (is_some (problem_code body)) || is_code (negsuc 899) (problem_code body))

-- 404 or 405 without a Portos code.
unfoldable pub is_missing_endpoint : ℕ → Json → Bool
unfolding problem_code
is_missing_endpoint status body =
    (status == 404 || status == 405) && not (is_some (problem_code body))

-- A receipt that does not exist: code -104.
unfoldable pub is_not_found : Json → Bool
unfolding problem_code
is_not_found body = is_code (negsuc 103) (problem_code body)

unfoldable pub is_success : ℕ → Bool
is_success status = leb 200 status && ltb status 300

unfoldable pub is_problem : Json → Bool
unfolding Json.member
is_problem body = is_some (Json.member "status" body) || is_some (Json.member "title" body)

-- What Portos says of a key.
pub data Lookup : Type 0 where
  found : Json → Lookup
  not_found : Lookup
  unreachable failed : String → Lookup

unfoldable pub lookup_answer : Texts → ℕ → Json → Lookup
unfolding is_problem is_not_found problem_code problem_text Json.is_object
lookup_answer t status body =
    if status == 200 && Json.is_object body
    then found body
    else if status == 204
    then not_found
    else if status == 404 && not (is_some (problem_code body)) && is_problem body
    then not_found
    else if leb 400 status && ltb status 500 && is_not_found body
    then not_found
    else Lookup.failed (problem_text t status body)

unfoldable pub classify_lookup : Texts → Reply → Lookup
unfolding lookup_answer
classify_lookup t (unreachable e) = Lookup.unreachable e
classify_lookup t (lost e) = Lookup.failed (concat ("no answer: " ∷ e ∷ []))
classify_lookup t (answer status body) = lookup_answer t status body
