-- ===== src/Client/Ipp/Utf8.antt =====
-- What `std::str::from_utf8` accepts: the well-formed byte sequences of the Unicode standard (the
-- library call of ipp_codec.rs in crates/devbridge-client/src).
use devbridge.Common.{ℕ, Bool, true, false, ◌&&◌, List, [], ◌∷◌, leb, if◌then◌else◌}

-- Where a byte has to lie.
abbrev Range : Type 0
Range = ℕ × ℕ

abbrev contains : Range → ℕ → Bool
contains (lo, hi) b = leb lo b && leb b hi

abbrev tail : Range
tail = (128, 191)

-- The bytes that must follow a first byte; an impossible range after a byte that can begin nothing.
abbrev following : ℕ → List Range
following b =
    if leb b 127
    then []
    else if contains (194, 223) b
    then tail ∷ []
    else if contains (224, 224) b
    then (160, 191) ∷ tail ∷ []
    else if contains (237, 237) b
    then (128, 159) ∷ tail ∷ []
    else if contains (225, 239) b
    then tail ∷ tail ∷ []
    else if contains (240, 240) b
    then (144, 191) ∷ tail ∷ tail ∷ []
    else if contains (241, 243) b
    then tail ∷ tail ∷ tail ∷ []
    else if contains (244, 244) b
    then (128, 143) ∷ tail ∷ tail ∷ []
    else (1, 0) ∷ []

unfoldable pub utf8_after : List Range → List ℕ → Bool
utf8_after [] [] = true
utf8_after (r ∷ rs) [] = false
utf8_after [] (b ∷ bs) = utf8_after (following b) bs
utf8_after (r ∷ rs) (b ∷ bs) = contains r b && utf8_after rs bs

unfoldable pub is_utf8 : List ℕ → Bool
unfolding utf8_after
is_utf8 bytes = utf8_after [] bytes
