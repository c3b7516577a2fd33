-- ===== src/Client/Download/Resumed.antt =====
-- Downloads that were interrupted, against the server's half of the transfer.
use devbridge.Common.{
  ℕ, zero, suc, String, Option, none, some, List, [], ◌∷◌, ◌++◌, ◌≡◌, refl, sym, ap, ◌∙◌, true,
  ◌==◌, string_eq, ltb, length, take, drop, drop-append, arith, Bool-cases, inl, inr, ◌⊎◌,
  append_assoc, ==_refl, is_some,
}
use devbridge.Common.Result.{Result, ok, err}
use devbridge.Server.Storage.Jobs.{get_spool_path}
use devbridge.Server.Queue
use devbridge.Server.Dispatch.Payload.{
  PayloadChunk, bytes_of, download_payload, download_payload_complete,
}
use devbridge.Client.Download.{
  PayloadStream, Downloaded, opened, checked, appended, download_payload_to,
}

-- A server's chunks, as a client gets them whole, or up to a break of the connection.
abbrev pub delivered : Option ℕ → Result (List PayloadChunk) → Result PayloadStream
delivered lost (err e) = err e
delivered none (ok cs) = ok (record { chunks = cs; broken = none })
delivered (some n) (ok cs) = ok (record { chunks = take n cs; broken = some "connection lost" })

-- A server, and the connection to it.
abbrev pub Served : Type 0
Served = Option ℕ → ℕ → Result PayloadStream

abbrev pub served : (String → Result (List ℕ)) → String → Queue.JobQueue → Served
served read job_id q lost offset = delivered lost (download_payload read job_id offset q)

-- The file after downloads that each broke after so many chunks.
abbrev pub interrupted :
    (List ℕ → String) → Served → String → List ℕ → Option (List ℕ) → Option (List ℕ)
interrupted sha256 serve expected [] dest = dest
interrupted sha256 serve expected (n ∷ ns) dest =
    interrupted sha256 serve expected ns
      (download_payload_to sha256 (serve (some n)) expected dest).dest

abbrev pub received : List ℕ → Downloaded
received contents = record { dest = some contents; error = none }

-- The file is a first part of the contents.
abbrev IsPrefix : List ℕ → Option (List ℕ) → Type 0
IsPrefix contents dest = (rest : List ℕ) × (opened dest ++ rest ≡ contents)

bytes-append :
    (n : ℕ) (cs : List PayloadChunk) → bytes_of (take n cs) ++ bytes_of (drop n cs) ≡ bytes_of cs
bytes-append zero cs = refl
bytes-append (suc n) [] = refl
bytes-append (suc n) (c ∷ cs) =
    append_assoc c.bytes (bytes_of (take n cs)) (bytes_of (drop n cs))
    ∙ ap (λ rest. c.bytes ++ rest) (bytes-append n cs)

opened-nonempty : (n : ℕ) → ltb 0 (suc n) ≡ true
opened-nonempty n = ground arith

opened-some : (bytes : List ℕ) → opened (some bytes) ≡ bytes
unfolding opened
opened-some [] = refl
opened-some (x ∷ xs) = rw (opened-nonempty (length xs)) refl

rest_of :
    (contents bytes rest : List ℕ) → bytes ++ rest ≡ contents → drop (length bytes) contents ≡ rest
rest_of contents bytes rest h = ap (drop (length bytes)) (sym h) ∙ drop-append bytes rest

module _ (sha256 : List ℕ → String) (read : String → Result (List ℕ)) (job_id spool_path : String)
    (contents : List ℕ) (q : Queue.JobQueue)
    (found : get_spool_path job_id q.storage ≡ some spool_path)
    (there : read spool_path ≡ ok contents) where
  abbrev answer :
      (offset : ℕ)
      → (cs : List PayloadChunk) × (download_payload read job_id offset q ≡ ok cs)
        × (bytes_of cs ≡ drop offset contents)
  answer offset =
      let whole = download_payload_complete read job_id spool_path offset contents q found there in
      (whole.0, whole.1, whole.2)

  download-IsPrefix :
      (n : ℕ) (dest : Option (List ℕ))
      → IsPrefix contents dest
      → IsPrefix contents
          (download_payload_to sha256 (served read job_id q (some n)) (sha256 contents) dest).dest
  unfolding download_payload_to appended
  download-IsPrefix n dest (rest, h) =
      let (cs, sent, bytes) = answer (length (opened dest)) in
      rw sent (
        bytes_of (drop n cs),
        ap (λ file. file ++ bytes_of (drop n cs))
              (opened-some (opened dest ++ bytes_of (take n cs)))
            ∙ append_assoc (opened dest) (bytes_of (take n cs)) (bytes_of (drop n cs))
            ∙ ap (λ more. opened dest ++ more)
                (bytes-append n cs ∙ bytes ∙ rest_of contents (opened dest) rest h)
            ∙ h,
      )

  interrupted-IsPrefix :
      (ns : List ℕ) (dest : Option (List ℕ))
      → IsPrefix contents dest
      → IsPrefix contents (interrupted sha256 (served read job_id q) (sha256 contents) ns dest)
  interrupted-IsPrefix [] dest h = h
  interrupted-IsPrefix (n ∷ ns) dest h =
      interrupted-IsPrefix ns
        (download_payload_to sha256 (served read job_id q (some n)) (sha256 contents) dest).dest
        (download-IsPrefix n dest h)

  whole_download :
      (dest : Option (List ℕ))
      → IsPrefix contents dest
      → download_payload_to sha256 (served read job_id q none) (sha256 contents) dest
        ≡ received contents
  unfolding download_payload_to appended checked
  whole_download dest (rest, h) =
      let (cs, sent, bytes) = answer (length (opened dest)) in
      rw sent rw bytes rw (rest_of contents (opened dest) rest h) rw h rw
        (==_refl (sha256 contents)) refl

  -- Downloads of one file that each broke after any number of chunks, the file they leave kept by
  -- each, then one that does not break: it succeeds, and the file is exactly the server's.
  pub resumed_download :
      (breaks : List ℕ)
      → download_payload_to sha256
          (served read job_id q none)
          (sha256 contents)
          (interrupted sha256 (served read job_id q) (sha256 contents) breaks none)
        ≡ received contents
  unfolding opened
  resumed_download breaks =
      whole_download (interrupted sha256 (served read job_id q) (sha256 contents) breaks none)
        (interrupted-IsPrefix breaks none (contents, refl))

  -- Whatever file is there before, a download that does not break either succeeds with a file whose
  -- digest is the announced one, or fails and deletes it, and then the next one succeeds with exactly
  -- the server's bytes.
  pub corrupt_file_heals :
      (dest : Option (List ℕ))
      → let once = download_payload_to sha256 (served read job_id q none) (sha256 contents) dest in
        ((file : List ℕ) × (once ≡ received file) × (sha256 file ≡ sha256 contents))
        ⊎ ((is_some once.error ≡ true)
            × (once.dest ≡ none)
            × (download_payload_to sha256 (served read job_id q none) (sha256 contents) once.dest
                ≡ received contents))
  unfolding download_payload_to appended checked opened
  corrupt_file_heals dest =
      let (cs, sent, bytes) = answer (length (opened dest)) in
      let file = opened dest ++ bytes_of cs in
      elim (Bool-cases (sha256 file == sha256 contents)) [
        | inl b ↦
            rw sent rw b (inl (file, refl, (string_eq.beq_iff (sha256 file) (sha256 contents)).0 b))
        | inr b ↦ rw sent rw b (inr (refl, refl, whole_download none (contents, refl)))
      ]
