-- ===== src/Server/Job.antt =====
-- Print jobs, their states and their audit events (crates/devbridge-core/src/job.rs, job_event.rs),
-- and the text that a job's state is stored as (crates/devbridge-server/src/storage.rs).
use devbridge.Common.{
  ℕ, String, ◌≡◌, refl, ◌⊎◌, inl, inr, arith, Bool-cases, Bool, true, false, not, ◌||◌, Option,
  none, ◌==◌, if◌then◌else◌, string_eq,
}

pub data JobState : Type 0 where
  queued downloading printing completed failed cancelled unconfirmed : JobState

pub data PrintStage : Type 0 where
  received routed downloading downloaded rendering rendered sending sent verified acknowledged
        completed failed retrying unconfirmed :
      PrintStage

pub record PrintJobEvent : Type 0 where
  pub job_id : String
  pub requesting_user : Option String
  pub stage : PrintStage
  pub success : Bool
  pub detail : String
  pub verification_method : String
  pub verification_evidence : String
  pub timestamp : ℕ

-- A new event of the pipeline.
unfoldable pub event_new : ℕ → String → PrintStage → Bool → String → PrintJobEvent
event_new now job_id stage success detail = record {
  job_id = job_id;
  requesting_user = none;
  stage = stage;
  success = success;
  detail = detail;
  verification_method = "";
  verification_evidence = "";
  timestamp = now;
}

pub data JobEvent : Type 0 where
  created : String → String → Option String → String → JobEvent
  state_changed : String → JobState → Option String → JobEvent

pub record JobMetadata : Type 0 where
  pub job_id : String
  pub document_name : String
  pub target_printer : String
  pub target_client_id : Option String
  pub copies : ℕ
  pub paper_size : String
  pub duplex : Bool
  pub color : Bool
  pub payload_size : ℕ
  pub payload_sha256 : String
  pub state : JobState
  pub retry_count : ℕ
  pub error_detail : String
  pub requesting_user : Option String
  pub created_at : ℕ
  pub updated_at : ℕ

unfoldable pub state_to_str : JobState → String
state_to_str queued = "queued"
state_to_str downloading = "downloading"
state_to_str printing = "printing"
state_to_str completed = "completed"
state_to_str failed = "failed"
state_to_str cancelled = "cancelled"
state_to_str unconfirmed = "unconfirmed"

unfoldable pub str_to_state : String → JobState
str_to_state s =
    if s == "queued"
    then queued
    else if s == "downloading"
    then downloading
    else if s == "printing"
    then printing
    else if s == "completed"
    then completed
    else if s == "failed"
    then failed
    else if s == "cancelled"
    then cancelled
    else unconfirmed

-- A state that no status update, failure or retry may leave.
abbrev pub is_finished : JobState → Bool
is_finished completed = true
is_finished cancelled = true
is_finished unconfirmed = true
is_finished _ = false

abbrev pub is_active : JobState → Bool
is_active downloading = true
is_active printing = true
is_active _ = false

abbrev pub is_queued : JobState → Bool
is_queued queued = true
is_queued _ = false

abbrev pub is_completed : JobState → Bool
is_completed completed = true
is_completed _ = false

-- A failed job, or one in progress, may be requeued.
abbrev pub is_requeuable : JobState → Bool
is_requeuable failed = true
is_requeuable downloading = true
is_requeuable printing = true
is_requeuable _ = false

-- `state IN ('queued', 'downloading', 'printing', 'failed')`
unfoldable pub text_unfinished : String → Bool
text_unfinished s = s == "queued" || (s == "downloading" || (s == "printing" || s == "failed"))

-- `state IN ('failed', 'downloading', 'printing')`
unfoldable pub text_requeuable : String → Bool
text_requeuable s = s == "failed" || (s == "downloading" || s == "printing")

-- `state IN ('downloading', 'printing')`
unfoldable pub text_active : String → Bool
text_active s = s == "downloading" || s == "printing"

-- The text of a state reads back as that state.
pub str_to_state-state_to_str : (s : JobState) → str_to_state (state_to_str s) ≡ s
unfolding str_to_state state_to_str
str_to_state-state_to_str queued = refl
str_to_state-state_to_str downloading = refl
str_to_state-state_to_str printing = refl
str_to_state-state_to_str completed = refl
str_to_state-state_to_str failed = refl
str_to_state-state_to_str cancelled = refl
str_to_state-state_to_str unconfirmed = refl

-- The text is none of the seven that are written.
abbrev IsOther : String → Type 0
IsOther s =
    ((s == "queued") ≡ false)
    × ((s == "downloading") ≡ false)
    × ((s == "printing") ≡ false)
    × ((s == "completed") ≡ false)
    × ((s == "failed") ≡ false)
    × ((s == "cancelled") ≡ false)

by_text : (s t : String) → (s ≡ t) ⊎ ((s == t) ≡ false)
by_text s t = elim (Bool-cases (s == t)) [
  | inl h ↦ inl ((string_eq.beq_iff s t).0 h)
  | inr h ↦ inr h
]

-- A stored text is that of a state, or it is none of the texts that the program tests for.
text_cases : (s : String) → ((j : JobState) × (s ≡ state_to_str j)) ⊎ IsOther s
unfolding state_to_str
text_cases s = elim (by_text s "queued") [
  | inl a ↦ inl (queued, a)
  | inr a ↦ elim (by_text s "downloading") [
    | inl b ↦ inl (downloading, b)
    | inr b ↦ elim (by_text s "printing") [
      | inl c ↦ inl (printing, c)
      | inr c ↦ elim (by_text s "completed") [
        | inl d ↦ inl (completed, d)
        | inr d ↦ elim (by_text s "failed") [
          | inl e ↦ inl (failed, e)
          | inr e ↦ elim (by_text s "cancelled") [
            | inl f ↦ inl (cancelled, f)
            | inr f ↦ inr (a, b, c, d, e, f)
          ]
        ]
      ]
    ]
  ]
]

abbrev pub SqlAgrees : String → Type 0
SqlAgrees s =
    (text_unfinished s ≡ not (is_finished (str_to_state s)))
    × (text_requeuable s ≡ is_requeuable (str_to_state s))
    × (text_active s ≡ is_active (str_to_state s))
    × ((s == "queued") ≡ is_queued (str_to_state s))
    × ((s == "completed") ≡ is_completed (str_to_state s))

known_agrees : (j : JobState) → SqlAgrees (state_to_str j)
unfolding text_unfinished text_requeuable text_active str_to_state state_to_str
known_agrees queued = (refl, refl, refl, refl, refl)
known_agrees downloading = (refl, refl, refl, refl, refl)
known_agrees printing = (refl, refl, refl, refl, refl)
known_agrees completed = (refl, refl, refl, refl, refl)
known_agrees failed = (refl, refl, refl, refl, refl)
known_agrees cancelled = (refl, refl, refl, refl, refl)
known_agrees unconfirmed = (refl, refl, refl, refl, refl)

other_agrees : (s : String) → IsOther s → SqlAgrees s
unfolding text_unfinished text_requeuable text_active str_to_state
other_agrees s h = ground arith

-- The conditions of the SQL statements on any stored text, known or not, are those on the state that
-- the text reads as; a text that this version never writes reads as a finished state.
pub sql_conditions : (s : String) → SqlAgrees s
sql_conditions s = elim (text_cases s) [
  | inl (j, e) ↦ rw e (known_agrees j)
  | inr h ↦ other_agrees s h
]
