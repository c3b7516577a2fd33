-- ===== src/Server/Examples/Downloads.antt =====
-- Downloads from the example server: by the service alone, and by a client that was interrupted.
use devbridge.Common.{
  ℕ, String, Option, none, some, List, [], ◌∷◌, ◌≡◌, refl, ◌==◌, nat_eq, string_eq, if◌then◌else◌,
  length, ◌⊎◌, is_some, true,
}
use devbridge.Common.Result.{Result, ok, err}
use devbridge.Server.Storage.Jobs.{get_spool_path}
use devbridge.Server.Dispatch.Payload.{
  PayloadChunk, bytes_of, IsRun, download_payload, download_payload_complete, chunks,
}
use devbridge.Client.Download.{download_payload_to, appended, checked, opened}
use devbridge.Client.Download.Resumed.{
  served, interrupted, received, resumed_download, corrupt_file_heals,
}
use devbridge.Server.Examples.{queue, server_runs}

abbrev pdf : List ℕ
pdf = 37 ∷ 80 ∷ 68 ∷ []

-- A digest for the examples.
abbrev digest : List ℕ → String
digest [] = "empty"
digest (x ∷ xs) = if length xs == 2 then "three" else "other"

abbrev disk : String → Result (List ℕ)
disk path = if path == "/spool/1" then ok pdf else err "no such file"

spooled : get_spool_path "held" queue.storage ≡ some "/spool/1"
unfolding server_runs
spooled = refl

download_payload_complete_example :
    (cs : List PayloadChunk) × (download_payload disk "held" 1 queue ≡ ok cs)
    × (bytes_of cs ≡ 80 ∷ 68 ∷ [])
    × IsRun 3 1 cs
download_payload_complete_example =
    download_payload_complete disk "held" "/spool/1" 1 pdf queue spooled refl

resumed_download_example :
    download_payload_to digest
      (served disk "held" queue none)
      (digest pdf)
      (interrupted digest (served disk "held" queue) (digest pdf) (0 ∷ 1 ∷ []) none)
    ≡ received pdf
resumed_download_example =
    resumed_download digest disk "held" "/spool/1" pdf queue spooled refl (0 ∷ 1 ∷ [])

-- What an earlier job left.
abbrev stale : Option (List ℕ)
stale = some (1 ∷ 2 ∷ 3 ∷ 4 ∷ [])

stale-is_dropped :
    (download_payload_to digest (served disk "held" queue none) (digest pdf) stale).dest ≡ none
unfolding download_payload_to appended checked opened download_payload chunks server_runs
stale-is_dropped = refl

corrupt_file_heals_example :
    let once = download_payload_to digest (served disk "held" queue none) (digest pdf) stale in
    ((file : List ℕ) × (once ≡ received file) × (digest file ≡ digest pdf))
    ⊎ ((is_some once.error ≡ true)
        × (once.dest ≡ none)
        × (download_payload_to digest (served disk "held" queue none) (digest pdf) once.dest
            ≡ received pdf))
corrupt_file_heals_example =
    corrupt_file_heals digest disk "held" "/spool/1" pdf queue spooled refl stale
