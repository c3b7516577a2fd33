-- ===== src/Server/Dispatch/Payload.antt =====
-- The download of a job's spool file in chunks (`download_payload` of
-- crates/devbridge-server/src/dispatch.rs). The file system is an argument.
use Prim.Native.String.{◌++◌ as str_append}
use native.Mathlib.Numerals.{unary_clauses}
use devbridge.Common.{
  ℕ, zero, suc, ◌+◌, ◌*◌, ◌-◌, ◌≤◌, ◌<◌, min, String, ◌≡◌, refl, sym, ap, ◌∙◌, Bool, none, some,
  List, [], ◌∷◌, ◌++◌, arith, if◌then◌else◌, ltb, leb, length, take, drop, length-take, length-drop,
  take-append-drop, Bool-cases, inl, inr,
}
use devbridge.Common.Result.{Result, ok, err}
use devbridge.Server.Storage.Jobs.{get_spool_path}
use devbridge.Server.Queue

pub record PayloadChunk : Type 0 where
  pub job_id : String
  pub offset : ℕ
  pub bytes : List ℕ
  pub is_last : Bool

abbrev pub chunk_size : ℕ
chunk_size = 64 * 1024

-- The chunks from an offset on: every pass moves on, so the number of bytes is fuel enough.
unfoldable pub chunks : ℕ → String → ℕ → List ℕ → List PayloadChunk
chunks zero job_id offset contents = []
chunks (suc fuel) job_id offset contents =
    let end = min (offset + chunk_size) (length contents) in
    let rest = chunks fuel job_id end contents in
    if ltb offset (length contents)
    then (record {
      job_id = job_id;
      offset = offset;
      bytes = take (end - offset) (drop offset contents);
      is_last = leb (length contents) end;
    })
      ∷ rest
    else []

abbrev streamed : String → ℕ → Result (List ℕ) → Result (List PayloadChunk)
streamed job_id offset (err e) = err (str_append "failed to read spool file: " e)
streamed job_id offset (ok contents) = ok (chunks (length contents) job_id offset contents)

-- `read` is the reading of a file.
unfoldable pub download_payload :
    (String → Result (List ℕ)) → String → ℕ → Queue.JobQueue → Result (List PayloadChunk)
download_payload read job_id offset q = elim (get_spool_path job_id q.storage) [
  | none ↦ err "job not found"
  | some spool_path ↦ streamed job_id offset (read spool_path)
]

abbrev pub bytes_of : List PayloadChunk → List ℕ
bytes_of [] = []
bytes_of (c ∷ cs) = c.bytes ++ bytes_of cs

-- Chunks that follow each other from an offset to the end, none too large; only the one that reaches
-- the end is marked as the last.
abbrev pub IsRun : ℕ → ℕ → List PayloadChunk → Type 0
IsRun total offset [] = total ≤ offset
IsRun total offset (c ∷ cs) =
    (c.offset ≡ offset)
    × (0 < length c.bytes)
    × (length c.bytes ≤ chunk_size)
    × (c.is_last ≡ leb total (offset + length c.bytes))
    × IsRun total (offset + length c.bytes) cs

suc-add : (n k : ℕ) → suc (n + k) ≡ suc n + k
suc-add n k = omega arith

drop-drop : (k n : ℕ) (xs : List ℕ) → drop k (drop n xs) ≡ drop (n + k) xs
drop-drop k zero xs = ap (λ n. drop n xs) (omega arith)
drop-drop zero (suc n) [] = simp unary_clauses refl
drop-drop (suc k) (suc n) [] = simp unary_clauses refl
drop-drop k (suc n) (x ∷ xs) = drop-drop k n xs ∙ ap (λ m. drop m (x ∷ xs)) (suc-add n k)

drop-all : (n : ℕ) (xs : List ℕ) → length xs ≤ n → [] ≡ drop n xs
drop-all zero [] h = refl
drop-all zero (x ∷ xs) h = absurd (omega arith)
drop-all (suc n) [] h = refl
drop-all (suc n) (x ∷ xs) h = drop-all n xs (omega arith)

end_of : ℕ → List ℕ → ℕ
end_of offset contents = min (offset + chunk_size) (length contents)

length-chunk :
    (offset : ℕ) (contents : List ℕ)
    → length (take (end_of offset contents - offset) (drop offset contents))
      ≡ end_of offset contents - offset
unfolding end_of
length-chunk offset contents =
    length-take (end_of offset contents - offset) (drop offset contents)
    ∙ (unfold end_of in omega (arith, length-drop {0} offset contents))

end-offset :
    (offset : ℕ) (contents : List ℕ)
    → offset < length contents
    → offset + (end_of offset contents - offset) ≡ end_of offset contents
unfolding end_of
end-offset offset contents h = omega arith

bytes-chunks :
    (fuel : ℕ) (job_id : String) (offset : ℕ) (contents : List ℕ)
    → length contents ≤ offset + fuel
    → bytes_of (chunks fuel job_id offset contents) ≡ drop offset contents
unfolding chunks end_of
bytes-chunks zero job_id offset contents h = drop-all offset contents (omega arith)
bytes-chunks (suc fuel) job_id offset contents h =
    elim (Bool-cases (ltb offset (length contents))) [
      | inl b ↦ rw b (
          ap (λ rest. take (end_of offset contents - offset) (drop offset contents) ++ rest)
            (bytes-chunks fuel job_id (end_of offset contents) contents (ground arith)
              ∙ sym (
                  drop-drop (end_of offset contents - offset) offset contents
                  ∙ ap (λ n. drop n contents) (end-offset offset contents (ground arith))))
          ∙ take-append-drop (end_of offset contents - offset) (drop offset contents))
      | inr b ↦ rw b (drop-all offset contents (ground arith))
    ]

chunks-IsRun :
    (fuel : ℕ) (job_id : String) (offset : ℕ) (contents : List ℕ)
    → length contents ≤ offset + fuel
    → IsRun (length contents) offset (chunks fuel job_id offset contents)
unfolding chunks end_of
chunks-IsRun zero job_id offset contents h = omega arith
chunks-IsRun (suc fuel) job_id offset contents h =
    elim (Bool-cases (ltb offset (length contents))) [
      | inl b ↦
          rw b rw (length-chunk offset contents) rw (end-offset offset contents (ground arith)) (
            refl,
            ground arith,
            ground arith,
            refl,
            chunks-IsRun fuel job_id (end_of offset contents) contents (ground arith),
          )
      | inr b ↦ rw b (ground arith)
    ]

-- A download that finds its file sends exactly the bytes from the offset on, in chunks that follow
-- each other to the end, none empty and none over the size, the one that reaches the end, and no
-- other, marked as the last.
pub download_payload_complete :
    (read : String → Result (List ℕ)) (job_id spool_path : String) (offset : ℕ) (contents : List ℕ)
    (q : Queue.JobQueue)
    → get_spool_path job_id q.storage ≡ some spool_path
    → read spool_path ≡ ok contents
    → (cs : List PayloadChunk) × (download_payload read job_id offset q ≡ ok cs)
      × (bytes_of cs ≡ drop offset contents)
      × IsRun (length contents) offset cs
unfolding download_payload
download_payload_complete read job_id spool_path offset contents q found there = (
  chunks (length contents) job_id offset contents,
  (rw (found, download_payload) rw there refl),
  bytes-chunks (length contents) job_id offset contents (omega arith),
  chunks-IsRun (length contents) job_id offset contents (omega arith),
)
