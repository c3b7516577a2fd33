-- ===== src/Device/Portos/Executor/Documented.antt =====
-- What the answers of Portos mean (docs/device-jobs-fiscal.md, section 5), stated by status and code.
use devbridge.Common.{ℕ, ◌≤◌, ◌<◌, ◌≡◌, ◌⊎◌, true, Option, none, some, String, is_some}
use devbridge.Common.Int.{ℤ, negsuc}
use devbridge.Common.Json
use devbridge.Common.Json.{Json}
use devbridge.Device.Portos.Reply.{Reply, unreachable, answer}

abbrev code_in : Option Json → Option ℤ
code_in none = none
code_in (some v) = Json.as_i64 v

-- The error code of an answer's body.
abbrev pub code_of : Json → Option ℤ
code_of body = code_in (Json.member "code" body)

-- An answer to a request that says that nothing was registered: no connection; 400 or 422 with no code
-- or -900; 401; 404 or 405 without a code.
pub data IsRefusal : Reply → Type 0 where
  no_connection : (e : String) → IsRefusal (unreachable e)
  invalid :
      (status : ℕ) (body : Json)
      → (status ≡ 400) ⊎ (status ≡ 422)
      → (code_of body ≡ none) ⊎ (code_of body ≡ some (negsuc 899))
      → IsRefusal (answer status body)
  unauthenticated : (status : ℕ) (body : Json) → status ≡ 401 → IsRefusal (answer status body)
  no_endpoint :
      (status : ℕ) (body : Json)
      → (status ≡ 404) ⊎ (status ≡ 405)
      → code_of body ≡ none
      → IsRefusal (answer status body)

-- An answer to a lookup that says that Portos has no such receipt: 204; 404 with a problem and no code;
-- any 4xx with code -104.
pub data SaysNone : Reply → Type 0 where
  no_content : (status : ℕ) (body : Json) → status ≡ 204 → SaysNone (answer status body)
  no_such_receipt :
      (status : ℕ) (body : Json)
      → status ≡ 404
      → code_of body ≡ none
      → (is_some (Json.member "status" body) ≡ true) ⊎ (is_some (Json.member "title" body) ≡ true)
      → SaysNone (answer status body)
  not_found_code :
      (status : ℕ) (body : Json)
      → 400 ≤ status
      → status < 500
      → code_of body ≡ some (negsuc 103)
      → SaysNone (answer status body)
