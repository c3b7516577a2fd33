-- ===== src/Device/Portos/Payload/Print.antt =====
-- The payloads of a copy and of a printed text (device_jobs/portos/payload.rs of
-- crates/devbridge-client/src), and the text that is printed.
use devbridge.Common.{
  ℕ, ◌+◌, String, Bool, false, ◌&&◌, ◌||◌, Option, none, some, List, [], ◌∷◌, ◌++◌, ◌==◌,
  if◌then◌else◌, leb, ltb, length, any, nat_eq,
}
use devbridge.Common.Text.{concat, join, codes}
use devbridge.Common.Json
use devbridge.Common.Json.{Json, Fields}
use devbridge.Device.Portos.Payload.Rules.{Std, fail, only_keys, is_control, is_blank}

-- Unicode's format characters.
unfoldable pub is_format_char : ℕ → Bool
is_format_char c =
    c == 0xAD
    || (leb 0x600 c && leb c 0x605)
    || c == 0x61C
    || c == 0x6DD
    || c == 0x70F
    || (leb 0x890 c && leb c 0x891)
    || c == 0x8E2
    || c == 0x180E
    || (leb 0x200B c && leb c 0x200F)
    || (leb 0x202A c && leb c 0x202E)
    || (leb 0x2060 c && leb c 0x2064)
    || (leb 0x2066 c && leb c 0x206F)
    || c == 0xFEFF
    || (leb 0xFFF9 c && leb c 0xFFFB)
    || c == 0x110BD
    || c == 0x110CD
    || (leb 0x13430 c && leb c 0x1343F)
    || (leb 0x1BCA0 c && leb c 0x1BCA3)
    || (leb 0x1D173 c && leb c 0x1D17A)
    || c == 0xE0001
    || (leb 0xE0020 c && leb c 0xE007F)

unfoldable pub is_hidden : ℕ → Bool
unfolding is_control is_format_char
is_hidden c = is_control c || is_format_char c

-- Why a line may not be printed: more than 40 characters, or one of them hidden.
unfoldable pub print_line_problem : Std → String → Option String
unfolding codes is_hidden
print_line_problem std line =
    if ltb 40 (length (codes line))
    then some (concat ("must have at most " ∷ std.show 40 ∷ " characters" ∷ []))
    else if any is_hidden (codes line)
    then some "must not contain control or format characters"
    else none

unfoldable pub problem_at : String → Option String → List String
unfolding fail
problem_at field none = []
problem_at field (some rule) = fail field rule

unfoldable pub title_at : Std → Option Json → List String
unfolding fail problem_at print_line_problem is_blank
title_at std none = fail "payload.title" "is required"
title_at std (some Json.null) = fail "payload.title" "is required"
title_at std (some (Json.text title)) =
    if is_blank title
    then fail "payload.title" "must not be empty"
    else problem_at "payload.title" (print_line_problem std title)
title_at std (some _) = fail "payload.title" "must be a string"

unfoldable pub line_at : Std → String → Json → List String
unfolding fail problem_at print_line_problem
line_at std field (Json.text line) = problem_at field (print_line_problem std line)
line_at std field _ = fail field "must be a string"

unfoldable pub lines_from : Std → ℕ → List Json → List String
unfolding line_at
lines_from std i [] = []
lines_from std i (line ∷ rest) =
    line_at std (concat ("payload.lines[" ∷ std.show i ∷ "]" ∷ [])) line
    ++ lines_from std (i + 1) rest

unfoldable pub some_lines : Std → List Json → List String
unfolding fail lines_from
some_lines std lines =
    if ltb 80 (length lines)
    then fail "payload.lines" (concat ("must have at most " ∷ std.show 80 ∷ " items" ∷ []))
    else lines_from std 0 lines

unfoldable pub lines_at : Std → Option Json → List String
unfolding fail some_lines Json.items
lines_at std (some (Json.array Json.nil)) = fail "payload.lines" "must not be empty"
lines_at std (some (Json.array list)) = some_lines std (Json.items list)
lines_at std none = fail "payload.lines" "is required"
lines_at std (some Json.null) = fail "payload.lines" "is required"
lines_at std (some _) = fail "payload.lines" "must be a list"

pub cut_at : Option Json → List String
unfolding fail
cut_at (some (Json.bool b)) = []
cut_at _ = fail "payload.cut" "must be true or false"

-- A printed text: a title, lines, and whether to cut.
unfoldable pub check_print_text : Std → Fields → List String
unfolding only_keys title_at lines_at cut_at Json.keys Json.get
check_print_text std obj =
    only_keys "payload" ("title" ∷ "lines" ∷ "cut" ∷ []) (Json.keys obj)
    ++ (title_at std (Json.get "title" obj)
        ++ (lines_at std (Json.get "lines" obj) ++ cut_at (Json.get "cut" obj)))

unfoldable pub texts : List Json → List String
texts [] = []
texts (Json.text s ∷ rest) = s ∷ texts rest
texts (_ ∷ rest) = texts rest

unfoldable pub title_rows : Option Json → List String
title_rows (some (Json.text s)) = s ∷ []
title_rows _ = []

unfoldable pub line_rows : Option Json → List String
unfolding texts Json.items
line_rows (some (Json.array list)) = texts (Json.items list)
line_rows _ = []

-- The rows of the printed text: the title and the lines.
unfoldable pub rows : Json → List String
unfolding title_rows line_rows Json.member
rows payload = title_rows (Json.member "title" payload) ++ line_rows (Json.member "lines" payload)

is_cut : Option Json → Bool
is_cut (some (Json.bool b)) = b
is_cut _ = false

-- The token of the paper cutter.
unfoldable pub page_break : String
page_break = "\u{1a}pagebreak\u{1a}"

-- The cutter's token stands after the text only where the job asks for the cut.
unfoldable pub print_text_body : Json → Json
unfolding rows is_cut Json.member Json.entries join page_break
print_text_body payload =
    let text = join "\n" (rows payload) in
    Json.object (
      Json.entries
        ((
          "text",
          Json.text (
              if is_cut (Json.member "cut" payload) then concat (text ∷ page_break ∷ []) else text),
        )
          ∷ ("contentFlags", Json.array Json.nil)
          ∷ [])
        Fields.end)
