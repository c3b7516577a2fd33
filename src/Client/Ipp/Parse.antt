-- ===== src/Client/Ipp/Parse.antt =====
-- The parser of an IPP response (parse_response of ipp_codec.rs in crates/devbridge-client/src). What is
-- left of the data stands for the position in it.
use devbridge.Common.{
  ℕ, zero, suc, Option, none, some, List, [], ◌∷◌, ◌==◌, nat_eq, String, length, leb, if◌then◌else◌,
}
use devbridge.Common.Result.{Result, ok, err}
use devbridge.Client.Ipp.{
  Bytes, IppAttribute, IppResponse, u16_from, u32_from, end_of_attributes_tag,
}
use devbridge.Client.Ipp.Utf8.{is_utf8}

-- Two bytes as a length, and the rest.
unfoldable pub read_u16 : Bytes → Option (ℕ × Bytes)
read_u16 (a ∷ b ∷ rest) = some (u16_from a b, rest)
read_u16 _ = none

abbrev pub prepend : ℕ → Option (Bytes × Bytes) → Option (Bytes × Bytes)
prepend b none = none
prepend b (some (bytes, rest)) = some (b ∷ bytes, rest)

-- The next `n` bytes and the rest, if there are so many.
unfoldable pub read_bytes : ℕ → Bytes → Option (Bytes × Bytes)
read_bytes zero data_left = some ([], data_left)
read_bytes (suc n) [] = none
read_bytes (suc n) (b ∷ rest) = prepend b (read_bytes n rest)

-- What one turn of the loop comes to.
pub data Turn : Type 0 where
  stopped : Turn
  group : Bytes → Turn
  attribute : IppAttribute → Bytes → Turn
  refused : String → Turn

abbrev pub with_value : ℕ → Bytes → Option (Bytes × Bytes) → Turn
with_value tag name none = refused "IPP response truncated at value"
with_value tag name (some (value, rest)) =
    attribute (record { name = name; tag = tag; value = value }) rest

abbrev pub with_value_len : ℕ → Bytes → Option (ℕ × Bytes) → Turn
with_value_len tag name none = refused "IPP response truncated at value-length"
with_value_len tag name (some (n, rest)) = with_value tag name (read_bytes n rest)

abbrev pub with_name : ℕ → Option (Bytes × Bytes) → Turn
with_name tag none = refused "IPP response truncated at name"
with_name tag (some (name, rest)) =
    if is_utf8 name
    then with_value_len tag name (read_u16 rest)
    else refused "Invalid UTF-8 in attribute name"

-- An empty name means another value of the attribute before.
abbrev pub with_name_len : ℕ → Bytes → Option (ℕ × Bytes) → Turn
with_name_len tag last_name none = refused "IPP response truncated at name-length"
with_name_len tag last_name (some (zero, rest)) = with_value_len tag last_name (read_u16 rest)
with_name_len tag last_name (some (suc n, rest)) = with_name tag (read_bytes (suc n) rest)

unfoldable pub turn : ℕ → Bytes → Bytes → Turn
unfolding read_u16 read_bytes
turn tag last_name rest =
    if leb tag 15
    then if tag == end_of_attributes_tag then stopped else group rest
    else with_name_len tag last_name (read_u16 rest)

abbrev pub add_attribute :
    IppAttribute → Option (Result (List IppAttribute)) → Option (Result (List IppAttribute))
add_attribute a none = none
add_attribute a (some (err e)) = some (err e)
add_attribute a (some (ok attributes)) = some (ok (a ∷ attributes))

-- The rest of the loop after a turn; `loop` is given the data left and the last name.
abbrev pub continued :
    (Bytes → Bytes → Option (Result (List IppAttribute)))
    → Bytes
    → Turn
    → Option (Result (List IppAttribute))
continued loop last_name stopped = some (ok [])
continued loop last_name (group rest) = loop rest last_name
continued loop last_name (attribute a rest) = add_attribute a (loop rest a.name)
continued loop last_name (refused reason) = some (err reason)

-- The loop, on fuel; `none` is where the fuel has run out.
unfoldable pub parse_attributes : ℕ → Bytes → Bytes → Option (Result (List IppAttribute))
unfolding turn
parse_attributes fuel [] last_name = some (ok [])
parse_attributes zero (tag ∷ rest) last_name = none
parse_attributes (suc fuel) (tag ∷ rest) last_name =
    continued (parse_attributes fuel) last_name (turn tag last_name rest)

abbrev pub response : ℕ → ℕ → Option (Result (List IppAttribute)) → Option (Result IppResponse)
response status_code request_id none = none
response status_code request_id (some (err e)) = some (err e)
response status_code request_id (some (ok attributes)) =
    some
      (ok (record { status_code = status_code; request_id = request_id; attributes = attributes }))

-- The bytes after the header are fuel enough.
unfoldable pub parse_response : Bytes → Option (Result IppResponse)
unfolding parse_attributes
parse_response (v ∷ w ∷ s ∷ t ∷ a ∷ b ∷ c ∷ d ∷ rest) =
    response (u16_from s t) (u32_from a b c d) (parse_attributes (length rest) rest [])
parse_response _ = some (err "IPP response too short")
