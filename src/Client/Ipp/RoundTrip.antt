-- ===== src/Client/Ipp/RoundTrip.antt =====
-- What the parser reads of what the client writes (ipp_codec.rs of crates/devbridge-client/src).
use devbridge.Common.{
  ℕ, zero, suc, ◌/◌, ◌%◌, Bool, true, false, some, List, [], ◌∷◌, ◌++◌, length, ◌≡◌, refl, sym, ap,
  ◌∙◌, arith, ◌≤◌, ◌<◌, ltb, ◌==◌, nat_eq, if◌then◌else◌, Bool-cases, Option-cases, inl, inr, max,
  append_assoc,
}
use devbridge.Common.Result.{Result, ok}
use devbridge.Client.Ipp.{
  Bytes, print_job, ascii, header, operation_group, copies_group, document_group,
  build_print_job_request, write_integer_attribute, IppAttribute, u16_bytes, u16_from, u32_bytes,
  u32_from, i32_bytes, i32_from, write_attribute, end_of_attributes_tag,
}
use devbridge.Client.Ipp.Utf8.{is_utf8, utf8_after}
use devbridge.Client.Ipp.Parse.{
  Turn, stopped, group, attribute, refused, read_u16, read_bytes, with_value, with_value_len,
  with_name, with_name_len, turn, add_attribute, continued, parse_attributes, response,
  parse_response,
}

read_u16-u16_bytes :
    (n : ℕ) (rest : Bytes) → n < 65536 → read_u16 (u16_bytes n ++ rest) ≡ some (n, rest)
unfolding read_u16 u16_bytes
read_u16-u16_bytes n rest h = ap (λ n. some (n, rest)) (omega (arith, h))

read_bytes-append : (xs rest : Bytes) → read_bytes (length xs) (xs ++ rest) ≡ some (xs, rest)
unfolding read_bytes
read_bytes-append [] rest = refl
read_bytes-append (x ∷ xs) rest = rw (read_bytes-append xs rest) refl

-- A 32-bit number is read back from its bytes.
pub u32_from-u32_bytes :
    (n : ℕ)
    → n < 4294967296
    → u32_from (n / 16777216 % 256) (n / 65536 % 256) (n / 256 % 256) (n % 256) ≡ n
u32_from-u32_bytes n h = omega (arith, h)

if_true {ℓ} : {A : Type ℓ} {b : Bool} (x y : A) → b ≡ true → (if b then x else y) ≡ x
if_true x y h = rw h refl

if_false {ℓ} : {A : Type ℓ} {b : Bool} (x y : A) → b ≡ false → (if b then x else y) ≡ y
if_false x y h = rw h refl

-- A turn of the loop reads an attribute as it was written.
turn-write :
    (tag c : ℕ) (cs value rest last_name : Bytes)
    → 15 < tag
    → length (c ∷ cs) < 65536
    → is_utf8 (c ∷ cs) ≡ true
    → length value < 65536
    → turn tag last_name
        (u16_bytes (length (c ∷ cs)) ++ (c ∷ (cs ++ (u16_bytes (length value) ++ (value ++ rest)))))
      ≡ attribute (record { name = c ∷ cs; tag = tag; value = value }) rest
unfolding turn
turn-write tag c cs value rest last_name ht hn hu hv =
    let after_value_len = value ++ rest in
    let after_name = u16_bytes (length value) ++ after_value_len in
    let after_name_len = c ∷ (cs ++ after_name) in
    let bytes = u16_bytes (length (c ∷ cs)) ++ after_name_len in
    if_false (if tag == end_of_attributes_tag then stopped else group bytes)
      (with_name_len tag last_name (read_u16 bytes)) (ground (arith, ht))
    ∙ ap (with_name_len tag last_name) (read_u16-u16_bytes (length (c ∷ cs)) after_name_len hn)
    ∙ ap (with_name tag) (read_bytes-append (c ∷ cs) after_name)
    ∙ if_true (with_value_len tag (c ∷ cs) (read_u16 after_name))
        (refused "Invalid UTF-8 in attribute name") hu
    ∙ ap (with_value_len tag (c ∷ cs)) (read_u16-u16_bytes (length value) after_value_len hv)
    ∙ ap (with_value tag (c ∷ cs)) (read_bytes-append value rest)

-- The loop reads a written attribute, then goes on behind it.
parse_attributes-write :
    (fuel tag c : ℕ) (cs value rest last_name : Bytes)
    → 15 < tag
    → length (c ∷ cs) < 65536
    → is_utf8 (c ∷ cs) ≡ true
    → length value < 65536
    → parse_attributes (suc fuel) (write_attribute tag (c ∷ cs) value ++ rest) last_name
      ≡ add_attribute
          (record { name = c ∷ cs; tag = tag; value = value })
          (parse_attributes fuel rest (c ∷ cs))
unfolding parse_attributes write_attribute u16_bytes
parse_attributes-write fuel tag c cs value rest last_name ht hn hu hv =
    ap
      (λ bytes.
        parse_attributes (suc fuel) (tag ∷ (u16_bytes (length (c ∷ cs)) ++ (c ∷ bytes))) last_name)
      (append_assoc cs (u16_bytes (length value) ++ value) rest)
    ∙ ap (continued (parse_attributes fuel) last_name)
        (turn-write tag c cs value rest last_name ht hn hu hv)

-- More fuel changes nothing.
parse_attributes-more :
    (m n : ℕ) (bytes last_name : Bytes) (r : Result (List IppAttribute))
    → m ≤ n
    → parse_attributes m bytes last_name ≡ some r
    → parse_attributes n bytes last_name ≡ some r
unfolding parse_attributes
parse_attributes-more m n [] last_name r h e = e
parse_attributes-more zero n (tag ∷ rest) last_name r h e = ground (arith, e)
parse_attributes-more (suc m) zero (tag ∷ rest) last_name r h e = absurd (omega (arith, h))
parse_attributes-more (suc m) (suc n) (tag ∷ rest) last_name r h e =
    more (turn tag last_name rest)
      (λ bytes last_name r. parse_attributes-more m n bytes last_name r (omega (arith, h))) e
  where
    more :
        (t : Turn)
        → ((bytes last_name : Bytes) (r : Result (List IppAttribute))
            → parse_attributes m bytes last_name ≡ some r
            → parse_attributes n bytes last_name ≡ some r)
        → continued (parse_attributes m) last_name t ≡ some r
        → continued (parse_attributes n) last_name t ≡ some r
    more stopped ih e = e
    more (group rest) ih e = ih rest last_name r e
    more (refused reason) ih e = e
    more (attribute a rest) ih e = elim (Option-cases (parse_attributes m rest a.name)) [
      | inl none_left ↦ ground (arith, none_left, e)
      | inr (s, found) ↦ ap (add_attribute a) (ih rest a.name s found ∙ sym found) ∙ e
    ]

-- An attribute in front of what the loop reads.
reads :
    (fuel tag c : ℕ) (cs value rest last_name : Bytes) (xs : List IppAttribute)
    → 15 < tag
    → length (c ∷ cs) < 65536
    → is_utf8 (c ∷ cs) ≡ true
    → length value < 65536
    → parse_attributes fuel rest (c ∷ cs) ≡ some (ok xs)
    → parse_attributes (suc fuel) (write_attribute tag (c ∷ cs) value ++ rest) last_name
      ≡ some (ok (record { name = c ∷ cs; tag = tag; value = value } ∷ xs))
reads fuel tag c cs value rest last_name xs ht hn hu hv h =
    parse_attributes-write fuel tag c cs value rest last_name ht hn hu hv
    ∙ ap (add_attribute (record { name = c ∷ cs; tag = tag; value = value })) h

-- The attributes that a request carries, and those of a print job.
abbrev pub operation_attributes : Bytes → List IppAttribute → List IppAttribute
operation_attributes printer_uri rest =
    record { name = ascii "attributes-charset"; tag = 71; value = ascii "utf-8" }
    ∷ record { name = ascii "attributes-natural-language"; tag = 72; value = ascii "en-us" }
    ∷ record { name = ascii "printer-uri"; tag = 69; value = printer_uri }
    ∷ rest

abbrev pub copies_attributes : ℕ → List IppAttribute
copies_attributes copies =
    if ltb 1 copies
    then record { name = ascii "copies"; tag = 33; value = i32_bytes (i32_from copies) } ∷ []
    else []

abbrev pub document_attributes : Bytes → Bytes → List IppAttribute → List IppAttribute
document_attributes document_format job_name rest =
    record { name = ascii "document-format"; tag = 73; value = document_format }
    ∷ record { name = ascii "job-name"; tag = 66; value = job_name }
    ∷ rest

abbrev pub print_job_attributes : Bytes → Bytes → Bytes → ℕ → List IppAttribute
print_job_attributes printer_uri document_format job_name copies =
    operation_attributes printer_uri
      (document_attributes document_format job_name (copies_attributes copies))

reads_operation_group :
    (fuel : ℕ) (printer_uri rest : Bytes) (xs : List IppAttribute)
    → length printer_uri < 65536
    → parse_attributes fuel rest (ascii "printer-uri") ≡ some (ok xs)
    → parse_attributes (suc (suc (suc (suc fuel)))) (operation_group printer_uri rest) []
      ≡ some (ok (operation_attributes printer_uri xs))
unfolding parse_attributes turn is_utf8 utf8_after
reads_operation_group fuel printer_uri rest xs hv h =
    reads (suc (suc fuel)) 71 _ _ (ascii "utf-8") _ [] _ (omega arith) (omega arith) refl
      (omega arith)
      (reads (suc fuel) 72 _ _ (ascii "en-us") _ _ _ (omega arith) (omega arith) refl (omega arith)
        (reads fuel 69 _ _ printer_uri rest _ xs (omega arith) (omega arith) refl hv h))

reads_copies_group :
    (copies : ℕ) (last_name : Bytes)
    → parse_attributes 3 (copies_group copies (end_of_attributes_tag ∷ [])) last_name
      ≡ some (ok (copies_attributes copies))
unfolding parse_attributes turn is_utf8 utf8_after write_integer_attribute i32_bytes u32_bytes
reads_copies_group copies last_name = elim (Bool-cases (ltb 1 copies)) [
  | inl e ↦ rw e (
      reads 1 33 _ _ (i32_bytes (i32_from copies)) (end_of_attributes_tag ∷ []) last_name []
        (omega arith) (omega arith) refl (omega arith) refl)
  | inr e ↦ rw e refl
]

-- The group of the operation is nine bytes long at least.
nine_bytes : (printer_uri rest : Bytes) → 9 ≤ length (operation_group printer_uri rest)
unfolding write_attribute u16_bytes
nine_bytes printer_uri rest = at_least _
  where
    at_least : (n : ℕ) → 9 ≤ suc (suc (suc (suc (suc (suc (suc (suc (suc n))))))))
    at_least n = omega arith

reads_document_group :
    (fuel : ℕ) (document_format job_name rest last_name : Bytes) (xs : List IppAttribute)
    → length document_format < 65536
    → length job_name < 65536
    → parse_attributes fuel rest (ascii "job-name") ≡ some (ok xs)
    → parse_attributes (suc (suc fuel)) (document_group document_format job_name rest) last_name
      ≡ some (ok (document_attributes document_format job_name xs))
unfolding parse_attributes turn is_utf8 utf8_after
reads_document_group fuel document_format job_name rest last_name xs hf hn h =
    reads (suc fuel) 73 _ _ document_format _ last_name _ (omega arith) (omega arith) refl hf
      (reads fuel 66 _ _ job_name rest _ xs (omega arith) (omega arith) refl hn h)

-- The header in front of what the loop reads.
parse_response-header :
    (operation request_id : ℕ) (rest : Bytes) (xs : List IppAttribute)
    → operation < 65536
    → request_id < 4294967296
    → parse_attributes (length rest) rest [] ≡ some (ok xs)
    → parse_response (header operation request_id rest)
      ≡ some (ok (record { status_code = operation; request_id = request_id; attributes = xs }))
unfolding parse_response u16_bytes u32_bytes
parse_response-header operation request_id rest xs ho hi h =
    let id =
      u32_from (request_id / 16777216 % 256) (request_id / 65536 % 256) (request_id / 256 % 256)
        (request_id % 256) in
    ap (response (u16_from (operation / 256 % 256) (operation % 256)) id) h
    ∙ ap (λ s. response s id (some (ok xs))) (omega (arith, ho))
    ∙ ap (λ i. response operation i (some (ok xs))) (u32_from-u32_bytes request_id hi)

reads_print_job :
    (printer_uri document_format job_name : Bytes) (copies : ℕ)
    → length printer_uri < 65536
    → length document_format < 65536
    → length job_name < 65536
    → parse_attributes 9
        (operation_group printer_uri (
          document_group document_format job_name
            (copies_group copies (end_of_attributes_tag ∷ []))))
        []
      ≡ some (ok (print_job_attributes printer_uri document_format job_name copies))
reads_print_job printer_uri document_format job_name copies hu hf hn =
    let copies_bytes = copies_group copies (end_of_attributes_tag ∷ []) in
    let bytes = document_group document_format job_name copies_bytes in
    reads_operation_group 5 printer_uri bytes
      (document_attributes document_format job_name (copies_attributes copies)) hu
      (reads_document_group 3 document_format job_name copies_bytes (ascii "printer-uri")
        (copies_attributes copies) hf hn (reads_copies_group copies (ascii "job-name")))

-- The parser reads a print job request as it was written: the operation in the place of a status, the
-- id, and the attributes, `copies` among them exactly if it is above one. The texts fit their lengths,
-- and the id fits 32 bits.
pub parse_response-build_print_job_request :
    (printer_uri document_format job_name : Bytes) (request_id copies : ℕ)
    → length printer_uri < 65536
    → length document_format < 65536
    → length job_name < 65536
    → request_id < 4294967296
    → parse_response
        (build_print_job_request printer_uri document_format job_name request_id copies)
      ≡ some (
          ok (record {
            status_code = print_job;
            request_id = request_id;
            attributes = print_job_attributes printer_uri document_format job_name (max copies 1);
          }))
unfolding build_print_job_request
parse_response-build_print_job_request printer_uri document_format job_name request_id copies hu hf
      hn hi =
    let rest = operation_group printer_uri (
      document_group document_format job_name
        (copies_group (max copies 1) (end_of_attributes_tag ∷ []))) in
    let attributes = print_job_attributes printer_uri document_format job_name (max copies 1) in
    parse_response-header print_job request_id rest attributes (omega arith) hi (
      parse_attributes-more 9 (length rest) rest [] (ok attributes) (nine_bytes printer_uri _)
        (reads_print_job printer_uri document_format job_name (max copies 1) hu hf hn))
