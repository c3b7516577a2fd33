-- ===== src/Common/Text.antt =====
-- Tests on texts, and their concatenation.
use Prim.Native.Nat.{ℕ, zero, suc}
use Prim.Native.Char.{code}
use Prim.Native.String
use Prim.Native.String.{String}
use mathlib.Core.List.{List, [], ◌∷◌}
use mathlib.Core.Bool.{Bool, true, false, ◌&&◌}
use devbridge.Common.Tests.{◌==◌, nat_eq}

unfoldable pub starts_with : String → String → Bool
starts_with String.[] text = true
starts_with (String.◌∷◌ c p) String.[] = false
starts_with (String.◌∷◌ c p) (String.◌∷◌ d text) = code c == code d && starts_with p text

-- The texts one after another, as `format!` puts them.
unfoldable pub concat : List String → String
concat [] = ""
concat (s ∷ rest) = String.◌++◌ s (concat rest)

join_after : String → List String → String
join_after separator [] = ""
join_after separator (s ∷ rest) = String.◌++◌ separator (String.◌++◌ s (join_after separator rest))

unfoldable pub join : String → List String → String
unfolding join_after
join separator [] = ""
join separator (s ∷ rest) = String.◌++◌ s (join_after separator rest)

-- The first characters of a text.
unfoldable pub take_chars : ℕ → String → String
take_chars zero s = ""
take_chars (suc n) String.[] = ""
take_chars (suc n) (String.◌∷◌ c s) = String.◌∷◌ c (take_chars n s)

-- The code points of a text.
unfoldable pub codes : String → List ℕ
codes String.[] = []
codes (String.◌∷◌ c s) = code c ∷ codes s
