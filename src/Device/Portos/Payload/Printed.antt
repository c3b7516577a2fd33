-- ===== src/Device/Portos/Payload/Printed.antt =====
-- A printed text carries no hidden character (device_jobs/portos/payload.rs of
-- crates/devbridge-client/src).
use devbridge.Common.{
  ℕ, ◌+◌, ◌≤◌, ◌<◌, ◌⊎◌, leb, ◌&&◌, ◌≡◌, refl, String, false, Option, none, some, List, [], ◌∷◌,
  ◌++◌, arith, All, any, length, ltb, Bool-cases, inl, inr, All-append, length-append,
}
use devbridge.Common.Text.{codes}
use devbridge.Common.Json
use devbridge.Common.Json.{Json, Fields}
use devbridge.Device.Portos.Operation.{print_text}
use devbridge.Device.Portos.Payload.Rules.{is_control, Std, fail, object, only_keys, is_blank}
use devbridge.Device.Portos.Payload.Print.{
  is_format_char, is_hidden, print_line_problem, problem_at, title_at, line_at, lines_from,
  some_lines, lines_at, check_print_text, texts, title_rows, line_rows, rows, cut_at,
}
use devbridge.Device.Portos.Payload.Check.{check_payload, check_op}

-- The characters of Unicode's category Cc (SUB, 26, among them, which begins a token of Portos) and Cf,
-- as ranges.
abbrev pub hidden_ranges : List (ℕ × ℕ)
hidden_ranges =
    (0, 31)
    ∷ (127, 159)
    ∷ (173, 173)
    ∷ (1536, 1541)
    ∷ (1564, 1564)
    ∷ (1757, 1757)
    ∷ (1807, 1807)
    ∷ (2192, 2193)
    ∷ (2274, 2274)
    ∷ (6158, 6158)
    ∷ (8203, 8207)
    ∷ (8234, 8238)
    ∷ (8288, 8292)
    ∷ (8294, 8303)
    ∷ (65279, 65279)
    ∷ (65529, 65531)
    ∷ (69821, 69821)
    ∷ (69837, 69837)
    ∷ (78896, 78911)
    ∷ (113824, 113827)
    ∷ (119155, 119162)
    ∷ (917505, 917505)
    ∷ (917536, 917631)
    ∷ []

-- A character outside every range.
abbrev pub IsShown : ℕ → Type 0
IsShown c = All (λ (r : ℕ × ℕ). (c < r.0) ⊎ (r.1 < c)) hidden_ranges

-- At most 40 characters, none of them a control or format character.
abbrev pub IsPrintable : String → Type 0
IsPrintable line = (length (codes line) ≤ 40) × All IsShown (codes line)

outside : (low high c : ℕ) → (leb low c && leb c high) ≡ false → (c < low) ⊎ (high < c)
outside low high c h = ground (arith, h)

not_hidden-IsShown : (c : ℕ) → is_hidden c ≡ false → IsShown c
unfolding is_hidden is_control is_format_char
not_hidden-IsShown c h = ground (arith, h)

none_hidden-IsShown : (cs : List ℕ) → any is_hidden cs ≡ false → All IsShown cs
none_hidden-IsShown [] h = tt
none_hidden-IsShown (c ∷ cs) h = elim (Bool-cases (is_hidden c)) [
  | inl e ↦ ground (arith, e, h)
  | inr e ↦ (not_hidden-IsShown c e, none_hidden-IsShown cs (ground (arith, e, h)))
]

append-eq-nil {ℓ} : {A : Type ℓ} (xs ys : List A) → xs ++ ys ≡ [] → (xs ≡ []) × (ys ≡ [])
append-eq-nil [] ys h = (refl, h)
append-eq-nil (x ∷ xs) ys h = cc

cons≢nil {ℓ} : {A : Type ℓ} {x : A} {xs : List A} → ¬ (x ∷ xs ≡ [])
cons≢nil h = cc

print_line_problem-IsPrintable :
    (std : Std) (line : String) → print_line_problem std line ≡ none → IsPrintable line
unfolding print_line_problem
print_line_problem-IsPrintable std line h =
    (ground (arith, h), none_hidden-IsShown (codes line) (ground (arith, h)))

problem_at-none : (field : String) (o : Option String) → problem_at field o ≡ [] → o ≡ none
unfolding problem_at fail
problem_at-none field none h = refl
problem_at-none field (some rule) h = cc

module _ (std : Std) where
  title_at-rows :
      (o : Option Json)
      → title_at std o ≡ []
      → All IsPrintable (title_rows o) × (length (title_rows o) ≡ 1)
  unfolding title_at title_rows fail
  title_at-rows (some (Json.text title)) h = elim (Bool-cases (is_blank title)) [
    | inl e ↦ absurd (cons≢nil (rw e at h))
    | inr e ↦
        ((print_line_problem-IsPrintable std title (problem_at-none _ _ (rw e at h)), tt), refl)
  ]
  title_at-rows none h = cc
  title_at-rows (some Json.null) h = cc
  title_at-rows (some (Json.bool b)) h = cc
  title_at-rows (some (Json.number n)) h = cc
  title_at-rows (some (Json.array l)) h = cc
  title_at-rows (some (Json.object l)) h = cc

  lines_from-texts :
      (i : ℕ) (lines : List Json)
      → lines_from std i lines ≡ []
      → All IsPrintable (texts lines) × (length (texts lines) ≡ length lines)
  unfolding lines_from line_at texts fail
  lines_from-texts i [] h = (tt, refl)
  lines_from-texts i (Json.text line ∷ rest) h =
      let both = append-eq-nil _ _ h in
      let more = lines_from-texts (i + 1) rest both.1 in
      (
        (print_line_problem-IsPrintable std line (problem_at-none _ _ both.0), more.0),
        omega (arith, more.1),
      )
  lines_from-texts i (Json.null ∷ rest) h = cc
  lines_from-texts i (Json.bool b ∷ rest) h = cc
  lines_from-texts i (Json.number n ∷ rest) h = cc
  lines_from-texts i (Json.array l ∷ rest) h = cc
  lines_from-texts i (Json.object l ∷ rest) h = cc

  some_lines-texts :
      (line : Json) (lines : List Json)
      → some_lines std (line ∷ lines) ≡ []
      → All IsPrintable (texts (line ∷ lines))
        × (1 ≤ length (texts (line ∷ lines)))
        × (length (texts (line ∷ lines)) ≤ 80)
  unfolding some_lines fail
  some_lines-texts line lines h = elim (Bool-cases (ltb 80 (length (line ∷ lines)))) [
    | inl e ↦ absurd (cons≢nil (rw e at h))
    | inr e ↦
        let k = lines_from-texts 0 (line ∷ lines) (rw e at h) in
        (k.0, omega (arith, k.1), ground (arith, k.1))
  ]

  lines_at-rows :
      (o : Option Json)
      → lines_at std o ≡ []
      → All IsPrintable (line_rows o) × (1 ≤ length (line_rows o)) × (length (line_rows o) ≤ 80)
  unfolding lines_at line_rows fail
  lines_at-rows (some (Json.array (Json.cons line rest))) h =
      some_lines-texts line (Json.items rest) h
  lines_at-rows (some (Json.array Json.nil)) h = cc
  lines_at-rows none h = cc
  lines_at-rows (some Json.null) h = cc
  lines_at-rows (some (Json.bool b)) h = cc
  lines_at-rows (some (Json.number n)) h = cc
  lines_at-rows (some (Json.text s)) h = cc
  lines_at-rows (some (Json.object l)) h = cc

  check_print_text-rows :
      (obj : Fields)
      → check_print_text std obj ≡ []
      → All IsPrintable (rows (Json.object obj))
        × (2 ≤ length (rows (Json.object obj)))
        × (length (rows (Json.object obj)) ≤ 81)
  unfolding check_print_text rows
  check_print_text-rows obj h =
      let cut = cut_at (Json.get "cut" obj) in
      let named = only_keys "payload" ("title" ∷ "lines" ∷ "cut" ∷ []) (Json.keys obj) in
      let titled = title_at std (Json.get "title" obj) in
      let lined = lines_at std (Json.get "lines" obj) in
      let by_keys = append-eq-nil named (titled ++ (lined ++ cut)) h in
      let by_title = append-eq-nil titled (lined ++ cut) by_keys.1 in
      let by_lines = append-eq-nil lined cut by_title.1 in
      let title = title_at-rows (Json.get "title" obj) by_title.0 in
      let lines = lines_at-rows (Json.get "lines" obj) by_lines.0 in
      let title_row = title_rows (Json.get "title" obj) in
      let line_row = line_rows (Json.get "lines" obj) in
      (
        All-append IsPrintable title_row line_row title.0 lines.0,
        omega (arith, length-append title_row line_row, title.1, lines.1),
        omega (arith, length-append title_row line_row, title.1, lines.2),
      )

-- The rows of a printed text that is accepted are a title and one to eighty lines, each of at most 40
-- characters and none of these a control or format character.
pub check_payload-rows :
    (std : Std) (now : ℕ) (payload : Json)
    → check_payload std now print_text payload ≡ []
    → All IsPrintable (rows payload) × (2 ≤ length (rows payload)) × (length (rows payload) ≤ 81)
unfolding check_payload check_op object fail
check_payload-rows std now (Json.object obj) h = check_print_text-rows std obj h
check_payload-rows std now Json.null h = cc
check_payload-rows std now (Json.bool b) h = cc
check_payload-rows std now (Json.number n) h = cc
check_payload-rows std now (Json.text s) h = cc
check_payload-rows std now (Json.array l) h = cc
