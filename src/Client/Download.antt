-- ===== src/Client/Download.antt =====
-- The client's download of a job's file (`download_payload` of
-- crates/devbridge-client/src/receiver.rs). The server's answer and the digest are arguments.
pub mod Resumed
use Prim.Native.String.{◌++◌ as str_append}
use devbridge.Common.{
  ℕ, String, Option, none, some, List, [], ◌++◌, ◌<◌, length, ltb, ◌==◌, string_eq, if◌then◌else◌,
}
use devbridge.Common.Result.{Result, ok, err}
use devbridge.Server.Dispatch.Payload.{PayloadChunk, bytes_of}

-- What the client reads of a stream: its chunks, and the error that ends it, or none at its end.
pub record PayloadStream : Type 0 where
  pub chunks : List PayloadChunk
  pub broken : Option String

-- The spool file, where there is one, and the error of the download, or none.
pub record Downloaded : Type 0 where
  pub dest : Option (List ℕ)
  pub error : Option String

-- The bytes of the file once it is opened: a missing or an empty one is created.
unfoldable pub opened : Option (List ℕ) → List ℕ
opened none = []
opened (some bytes) = if ltb 0 (length bytes) then bytes else []

abbrev mismatch : String → String → String
mismatch expected actual =
    str_append "SHA256 mismatch: expected " (str_append expected (str_append ", got " actual))

-- The digest of all that was hashed decides whether the file stays.
unfoldable pub checked : (List ℕ → String) → String → List ℕ → Downloaded
checked sha256 expected file =
    if sha256 file == expected
    then record { dest = some file; error = none }
    else record { dest = none; error = some (mismatch expected (sha256 file)) }

unfoldable pub appended : (List ℕ → String) → String → List ℕ → Result PayloadStream → Downloaded
appended sha256 expected file (err e) = record { dest = some file; error = some e }
appended sha256 expected file (ok stream) = elim stream.broken [
  | none ↦ checked sha256 expected (file ++ bytes_of stream.chunks)
  | some e ↦ record { dest = some (file ++ bytes_of stream.chunks); error = some e }
]

-- `serve` answers the request for the bytes from an offset on.
unfoldable pub download_payload_to :
    (List ℕ → String) → (ℕ → Result PayloadStream) → String → Option (List ℕ) → Downloaded
unfolding opened
download_payload_to sha256 serve expected dest =
    let file = opened dest in appended sha256 expected file (serve (length file))
