-- ===== src/Common/Json.antt =====
-- JSON values and the accessors of `serde_json::Value` that the program uses. A number is an integer
-- or the text of a float; what is computed with floats is an argument.
use Prim.Native.Nat.{ℕ, ◌^◌}
use Prim.Native.String.{String}
use mathlib.Core.Bool.{Bool, true, false}
use mathlib.Core.Option.{Option, none, some}
use mathlib.Core.List.{List, [], ◌∷◌}
use devbridge.Common.Tests.{if◌then◌else◌, ltb, ◌==◌, string_eq}
use devbridge.Common.Int.{ℤ, pos, negsuc}

pub data Number : Type 0 where
  int : ℤ → Number
  float : String → Number

mutual
  pub data Json : Type 0 where
    null : Json
    bool : Bool → Json
    number : Number → Json
    text : String → Json
    array : Items → Json
    object : Fields → Json

  pub data Items : Type 0 where
    nil : Items
    cons : Json → Items → Items

  -- The keys of an object are different; the first entry of a key counts.
  pub data Fields : Type 0 where
    end : Fields
    field : String → Json → Fields → Fields

unfoldable pub get : String → Fields → Option Json
get key end = none
get key (field k v rest) = if k == key then some v else get key rest

-- `Value::get`: nothing of a value that is no object.
unfoldable pub member : String → Json → Option Json
unfolding get
member key (object fields) = get key fields
member key _ = none

unfoldable pub as_str : Json → Option String
as_str (text s) = some s
as_str _ = none

-- An integer of 64 bits with a sign.
unfoldable pub as_i64 : Json → Option ℤ
as_i64 (number (int (pos n))) = if ltb n (2 ^ 63) then some (pos n) else none
as_i64 (number (int (negsuc n))) = if ltb n (2 ^ 63) then some (negsuc n) else none
as_i64 _ = none

-- An integer of 64 bits without one.
unfoldable pub as_u64 : Json → Option ℕ
as_u64 (number (int (pos n))) = if ltb n (2 ^ 64) then some n else none
as_u64 _ = none

unfoldable pub is_object : Json → Bool
is_object (object fields) = true
is_object _ = false

unfoldable pub is_number : Json → Bool
is_number (number n) = true
is_number _ = false

unfoldable pub is_null : Json → Bool
is_null null = true
is_null _ = false

unfoldable pub items : Items → List Json
items nil = []
items (cons v rest) = v ∷ items rest

unfoldable pub keys : Fields → List String
keys end = []
keys (field k v rest) = k ∷ keys rest

-- `map.insert`: the value of a key is replaced.
unfoldable pub put : String → Json → Fields → Fields
put key v end = field key v end
put key v (field k w rest) = if k == key then field k v rest else field k w (put key v rest)

-- `json!({ … })`, and the rest of its entries.
unfoldable pub entries : List (String × Json) → Fields → Fields
entries [] rest = rest
entries ((key, v) ∷ more) rest = field key v (entries more rest)
