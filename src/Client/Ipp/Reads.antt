-- ===== src/Client/Ipp/Reads.antt =====
-- The loop of the parser ends: every turn takes a byte at least, so the bytes that are left are fuel
-- enough (ipp_codec.rs of crates/devbridge-client/src).
use devbridge.Common.{
  ℕ, zero, suc, true, Option, none, some, List, [], ◌∷◌, length, ◌≡◌, refl, ◌∙◌, arith, ◌≤◌,
  is_some, leb, ◌==◌, nat_eq, Bool-cases, inl, inr,
}
use devbridge.Common.Result.{Result, ok, err}
use devbridge.Client.Ipp.{Bytes, IppAttribute, u16_from, u32_from, end_of_attributes_tag}
use devbridge.Client.Ipp.Utf8.{is_utf8}
use devbridge.Client.Ipp.Parse.{
  Turn, stopped, group, attribute, refused, read_u16, read_bytes, prepend, with_value,
  with_value_len, with_name, with_name_len, turn, add_attribute, continued, parse_attributes,
  response, parse_response,
}

-- What a read leaves is no longer than `n`.
abbrev Leaves {ℓ} : {A : Type ℓ} → ℕ → Option (A × Bytes) → Type 0
Leaves n none = Unit
Leaves n (some (x, rest)) = length rest ≤ n

read_u16-Leaves : (bytes : Bytes) → Leaves (length bytes) (read_u16 bytes)
unfolding read_u16
read_u16-Leaves [] = tt
read_u16-Leaves (a ∷ []) = tt
read_u16-Leaves (a ∷ b ∷ rest) = omega arith

read_bytes-Leaves : (n : ℕ) (bytes : Bytes) → Leaves (length bytes) (read_bytes n bytes)
unfolding read_bytes
read_bytes-Leaves zero bytes = omega arith
read_bytes-Leaves (suc n) [] = tt
read_bytes-Leaves (suc n) (b ∷ rest) = prepended (read_bytes n rest) (read_bytes-Leaves n rest)
  where
    prepended :
        (o : Option (Bytes × Bytes))
        → Leaves (length rest) o
        → Leaves (suc (length rest)) (prepend b o)
    prepended none h = tt
    prepended (some (xs, ys)) h = omega arith

-- The bytes that a turn leaves to the loop.
abbrev left : Turn → ℕ
left stopped = 0
left (group rest) = length rest
left (attribute a rest) = length rest
left (refused reason) = 0

left-with_value :
    (m tag : ℕ) (name : Bytes) (o : Option (Bytes × Bytes))
    → Leaves m o
    → left (with_value tag name o) ≤ m
left-with_value m tag name none h = omega arith
left-with_value m tag name (some (value, rest)) h = h

left-with_value_len :
    (m tag : ℕ) (name : Bytes) (o : Option (ℕ × Bytes))
    → Leaves m o
    → left (with_value_len tag name o) ≤ m
left-with_value_len m tag name none h = omega arith
left-with_value_len m tag name (some (n, rest)) h = omega (
  arith,
  left-with_value (length rest) tag name (read_bytes n rest) (read_bytes-Leaves n rest),
  h,
)

left-with_name : (m tag : ℕ) (o : Option (Bytes × Bytes)) → Leaves m o → left (with_name tag o) ≤ m
left-with_name m tag none h = omega arith
left-with_name m tag (some (name, rest)) h = elim (Bool-cases (is_utf8 name)) [
  | inl e ↦ rw e (
      omega (
        arith,
        left-with_value_len (length rest) tag name (read_u16 rest) (read_u16-Leaves rest),
        h,
      ))
  | inr e ↦ rw e (omega arith)
]

left-with_name_len :
    (m tag : ℕ) (last_name : Bytes) (o : Option (ℕ × Bytes))
    → Leaves m o
    → left (with_name_len tag last_name o) ≤ m
left-with_name_len m tag last_name none h = omega arith
left-with_name_len m tag last_name (some (zero, rest)) h = omega (
  arith,
  left-with_value_len (length rest) tag last_name (read_u16 rest) (read_u16-Leaves rest),
  h,
)
left-with_name_len m tag last_name (some (suc n, rest)) h = omega (
  arith,
  left-with_name (length rest) tag (read_bytes (suc n) rest) (read_bytes-Leaves (suc n) rest),
  h,
)

left-turn : (tag : ℕ) (last_name rest : Bytes) → left (turn tag last_name rest) ≤ length rest
unfolding turn
left-turn tag last_name rest = elim (Bool-cases (leb tag 15)) [
  | inl e ↦ elim (Bool-cases (tag == end_of_attributes_tag)) [
    | inl t ↦ rw (e, t) (omega arith)
    | inr t ↦ rw (e, t) (omega arith)
  ]
  | inr e ↦
      rw e (left-with_name_len (length rest) tag last_name (read_u16 rest) (read_u16-Leaves rest))
]

-- The loop returns if its fuel is no less than the bytes that are left.
is_some-parse_attributes :
    (fuel : ℕ) (bytes last_name : Bytes)
    → length bytes ≤ fuel
    → is_some (parse_attributes fuel bytes last_name) ≡ true
unfolding parse_attributes
is_some-parse_attributes fuel [] last_name h = refl
is_some-parse_attributes zero (tag ∷ rest) last_name h = absurd (omega (arith, h))
is_some-parse_attributes (suc fuel) (tag ∷ rest) last_name h =
    continued-returns (turn tag last_name rest) (omega (arith, left-turn tag last_name rest, h))
      (is_some-parse_attributes fuel)
  where
    added :
        (a : IppAttribute) (o : Option (Result (List IppAttribute)))
        → is_some (add_attribute a o) ≡ is_some o
    added a none = refl
    added a (some (ok xs)) = refl
    added a (some (err e)) = refl

    continued-returns :
        (t : Turn)
        → left t ≤ fuel
        → ((bytes last_name : Bytes)
            → length bytes ≤ fuel
            → is_some (parse_attributes fuel bytes last_name) ≡ true)
        → is_some (continued (parse_attributes fuel) last_name t) ≡ true
    continued-returns stopped b ih = refl
    continued-returns (group rest) b ih = ih rest last_name b
    continued-returns (attribute a rest) b ih = added a _ ∙ ih rest a.name b
    continued-returns (refused reason) b ih = refl

is_some-response :
    (s r : ℕ) (o : Option (Result (List IppAttribute))) → is_some (response s r o) ≡ is_some o
is_some-response s r none = refl
is_some-response s r (some (ok xs)) = refl
is_some-response s r (some (err e)) = refl

-- The parser returns on all data, with a response or with an error.
pub is_some-parse_response : (bytes : Bytes) → is_some (parse_response bytes) ≡ true
unfolding parse_response
is_some-parse_response [] = refl
is_some-parse_response (v ∷ []) = refl
is_some-parse_response (v ∷ w ∷ []) = refl
is_some-parse_response (v ∷ w ∷ s ∷ []) = refl
is_some-parse_response (v ∷ w ∷ s ∷ t ∷ []) = refl
is_some-parse_response (v ∷ w ∷ s ∷ t ∷ a ∷ []) = refl
is_some-parse_response (v ∷ w ∷ s ∷ t ∷ a ∷ b ∷ []) = refl
is_some-parse_response (v ∷ w ∷ s ∷ t ∷ a ∷ b ∷ c ∷ []) = refl
is_some-parse_response (v ∷ w ∷ s ∷ t ∷ a ∷ b ∷ c ∷ d ∷ rest) =
    is_some-response (u16_from s t) (u32_from a b c d) (parse_attributes (length rest) rest [])
    ∙ is_some-parse_attributes (length rest) rest [] (omega arith)
