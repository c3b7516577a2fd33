-- ===== src/Client/Ipp.antt =====
-- The IPP messages that the client writes (ipp_codec.rs of crates/devbridge-client/src). Bytes are
-- numbers below 256, and a text is its UTF-8 bytes, as in the code.
pub mod Utf8
pub mod Parse
pub mod Reads
pub mod RoundTrip
use Prim.Native.Char.{code}
use devbridge.Common.{
  ℕ, ◌*◌, ◌+◌, ◌-◌, ◌/◌, ◌%◌, String, Bool, true, false, ◌&&◌, Option, none, some, List, [], ◌∷◌,
  ◌++◌, ◌==◌, nat_eq, length, ltb, leb, max, if◌then◌else◌,
}
use devbridge.Common.Int.{ℤ, pos, negsuc}

abbrev pub Bytes : Type 0
Bytes = List ℕ

-- The bytes of a text of ASCII characters.
abbrev pub ascii : String → Bytes
ascii String.[] = []
ascii (String.◌∷◌ c text) = code c ∷ ascii text

abbrev pub print_job : ℕ
print_job = 2

abbrev pub get_job_attributes : ℕ
get_job_attributes = 9

abbrev pub end_of_attributes_tag : ℕ
end_of_attributes_tag = 3

abbrev charset_tag : ℕ
charset_tag = 71

abbrev natural_language_tag : ℕ
natural_language_tag = 72

abbrev uri_tag : ℕ
uri_tag = 69

abbrev mime_media_type_tag : ℕ
mime_media_type_tag = 73

abbrev name_without_language_tag : ℕ
name_without_language_tag = 66

abbrev integer_tag : ℕ
integer_tag = 33

abbrev pub bytes_eq : Bytes → Bytes → Bool
bytes_eq [] [] = true
bytes_eq (a ∷ xs) (b ∷ ys) = a == b && bytes_eq xs ys
bytes_eq [] (b ∷ ys) = false
bytes_eq (a ∷ xs) [] = false

pub record IppAttribute : Type 0 where
  pub name : Bytes
  pub tag : ℕ
  pub value : Bytes

pub record IppResponse : Type 0 where
  pub status_code : ℕ
  pub request_id : ℕ
  pub attributes : List IppAttribute

-- `to_be_bytes` of the low 16 bits, of the low 32 bits, and of an `i32`.
unfoldable pub u16_bytes : ℕ → Bytes
u16_bytes n = n / 256 % 256 ∷ n % 256 ∷ []

unfoldable pub u32_bytes : ℕ → Bytes
u32_bytes n = n / 16777216 % 256 ∷ n / 65536 % 256 ∷ n / 256 % 256 ∷ n % 256 ∷ []

abbrev pub u32_of : ℤ → ℕ
u32_of (pos n) = n
u32_of (negsuc n) = 4294967295 - n

unfoldable pub i32_bytes : ℤ → Bytes
unfolding u32_bytes
i32_bytes i = u32_bytes (u32_of i)

-- Back from the bytes.
abbrev pub u16_from : ℕ → ℕ → ℕ
u16_from a b = a * 256 + b

abbrev pub u32_from : ℕ → ℕ → ℕ → ℕ → ℕ
u32_from a b c d = ((a * 256 + b) * 256 + c) * 256 + d

abbrev pub i32_from : ℕ → ℤ
i32_from n = if ltb n 2147483648 then pos n else negsuc (4294967295 - n)

abbrev i32_of_four : Bytes → Option ℤ
i32_of_four (a ∷ b ∷ c ∷ d ∷ []) = some (i32_from (u32_from a b c d))
i32_of_four _ = none

unfoldable pub as_i32 : IppAttribute → Option ℤ
as_i32 attribute = i32_of_four attribute.value

abbrev first_named : Bytes → List IppAttribute → Option IppAttribute
first_named name [] = none
first_named name (a ∷ rest) = if bytes_eq a.name name then some a else first_named name rest

unfoldable pub get : Bytes → IppResponse → Option IppAttribute
get name response = first_named name response.attributes

unfoldable pub is_success : IppResponse → Bool
is_success response = leb response.status_code 255

unfoldable pub write_attribute : ℕ → Bytes → Bytes → Bytes
unfolding u16_bytes
write_attribute tag name value =
    tag ∷ (u16_bytes (length name) ++ (name ++ (u16_bytes (length value) ++ value)))

unfoldable pub write_integer_attribute : ℕ → Bytes → ℤ → Bytes
unfolding write_attribute i32_bytes
write_integer_attribute tag name value = write_attribute tag name (i32_bytes value)

abbrev pub header : ℕ → ℕ → Bytes → Bytes
header operation request_id rest = 1 ∷ 1 ∷ (u16_bytes operation ++ (u32_bytes request_id ++ rest))

-- The operation's group: its tag, then the attributes that every request carries.
abbrev pub operation_group : Bytes → Bytes → Bytes
operation_group printer_uri rest =
    1
    ∷ (write_attribute charset_tag (ascii "attributes-charset") (ascii "utf-8")
        ++ (write_attribute natural_language_tag (ascii "attributes-natural-language")
              (ascii "en-us")
            ++ (write_attribute uri_tag (ascii "printer-uri") printer_uri ++ rest)))

-- The cast of `copies` to `i32` wraps around.
abbrev pub copies_group : ℕ → Bytes → Bytes
copies_group copies rest =
    if ltb 1 copies
    then 2 ∷ (write_integer_attribute integer_tag (ascii "copies") (i32_from copies) ++ rest)
    else rest

abbrev pub document_group : Bytes → Bytes → Bytes → Bytes
document_group document_format job_name rest =
    write_attribute mime_media_type_tag (ascii "document-format") document_format
    ++ (write_attribute name_without_language_tag (ascii "job-name") job_name ++ rest)

unfoldable pub build_print_job_request : Bytes → Bytes → Bytes → ℕ → ℕ → Bytes
unfolding u16_bytes u32_bytes write_attribute write_integer_attribute
build_print_job_request printer_uri document_format job_name request_id copies =
    header print_job request_id (
      operation_group printer_uri (
        document_group document_format job_name
          (copies_group (max copies 1) (end_of_attributes_tag ∷ []))))

unfoldable pub build_get_job_attributes_request : Bytes → ℤ → ℕ → Bytes
unfolding u16_bytes u32_bytes write_attribute write_integer_attribute
build_get_job_attributes_request printer_uri job_id request_id =
    header get_job_attributes request_id (
      operation_group printer_uri
        (write_integer_attribute integer_tag (ascii "job-id") job_id ++ end_of_attributes_tag ∷ []))
