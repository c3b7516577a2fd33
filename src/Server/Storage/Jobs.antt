-- ===== src/Server/Storage/Jobs.antt =====
-- The table of jobs and the statements on one job (crates/devbridge-server/src/storage.rs). The
-- column `state` is a text, which another version of the program may have written.
use devbridge.Common.{
  ℕ, ◌+◌, String, Bool, true, false, Option, none, some, List, [], ◌∷◌, ◌++◌, ◌==◌, if◌then◌else◌,
  is_some, string_eq,
}
use devbridge.Common.Result.{Result, ok, err}
use devbridge.Common.Table.{find, insert, update, passes}
use devbridge.Server.Job.{
  JobState, JobMetadata, PrintJobEvent, state_to_str, str_to_state, text_unfinished,
  text_requeuable,
}

-- The columns of one job.
pub record JobRow : Type 0 where
  pub document_name : String
  pub target_printer : String
  pub target_client_id : Option String
  pub copies : ℕ
  pub paper_size : String
  pub duplex : Bool
  pub color : Bool
  pub payload_size : ℕ
  pub payload_sha256 : String
  pub state : String
  pub retry_count : ℕ
  pub error_detail : String
  pub requesting_user : Option String
  pub spool_path : String
  pub created_at : ℕ
  pub updated_at : ℕ

-- The tables `jobs`, under their `job_id`, and `job_events`, in the order of their ids.
pub record Storage : Type 0 where
  pub jobs : List (String × JobRow)
  pub job_events : List PrintJobEvent

unfoldable pub row_to_job : String → JobRow → JobMetadata
row_to_job job_id r = record {
  job_id = job_id;
  document_name = r.document_name;
  target_printer = r.target_printer;
  target_client_id = r.target_client_id;
  copies = r.copies;
  paper_size = r.paper_size;
  duplex = r.duplex;
  color = r.color;
  payload_size = r.payload_size;
  payload_sha256 = r.payload_sha256;
  state = str_to_state r.state;
  retry_count = r.retry_count;
  error_detail = r.error_detail;
  requesting_user = r.requesting_user;
  created_at = r.created_at;
  updated_at = r.updated_at;
}

abbrev pub job_to_row : JobMetadata → String → JobRow
job_to_row m spool_path = record {
  document_name = m.document_name;
  target_printer = m.target_printer;
  target_client_id = m.target_client_id;
  copies = m.copies;
  paper_size = m.paper_size;
  duplex = m.duplex;
  color = m.color;
  payload_size = m.payload_size;
  payload_sha256 = m.payload_sha256;
  state = state_to_str m.state;
  retry_count = m.retry_count;
  error_detail = m.error_detail;
  requesting_user = m.requesting_user;
  spool_path = spool_path;
  created_at = m.created_at;
  updated_at = m.updated_at;
}

-- `ON CONFLICT(job_id) DO UPDATE`: only what a retry changes.
abbrev pub refreshed : JobMetadata → JobRow → JobRow
refreshed m r = record r {
  state = state_to_str m.state;
  retry_count = m.retry_count;
  error_detail = m.error_detail;
  updated_at = m.updated_at;
}

unfoldable pub insert_job : JobMetadata → String → Storage → Storage
insert_job m spool_path s =
    if is_some (find m.job_id s.jobs)
    then record s { jobs = update m.job_id (λ r. true) (refreshed m) s.jobs }
    else record s { jobs = insert m.job_id (job_to_row m spool_path) s.jobs }

abbrev pub job_of : String → Option JobRow → Option JobMetadata
job_of job_id none = none
job_of job_id (some r) = some (row_to_job job_id r)

unfoldable pub get_job : String → Storage → Option JobMetadata
get_job job_id s = job_of job_id (find job_id s.jobs)

abbrev spool_of : Option JobRow → Option String
spool_of none = none
spool_of (some r) = some r.spool_path

unfoldable pub get_spool_path : String → Storage → Option String
get_spool_path job_id s = spool_of (find job_id s.jobs)

abbrev pub state_text : Option JobRow → Result String
state_text none = err "not found"
state_text (some r) = ok r.state

-- The stored `state` text; an error when there is no such job.
unfoldable pub existing_state_text : String → Storage → Result String
existing_state_text job_id s = state_text (find job_id s.jobs)

-- An `UPDATE` of one job: how it leaves the storage, and whether it changed a row.
unfoldable pub update_job : String → (JobRow → Bool) → (JobRow → JobRow) → Storage → Storage × Bool
update_job job_id test set s =
    (record s { jobs = update job_id test set s.jobs }, passes test (find job_id s.jobs))

abbrev pub with_state : ℕ → JobState → JobRow → JobRow
with_state now state r = record r { state = state_to_str state; updated_at = now }

abbrev pub found_or_error : Storage × Bool → Storage × Result (Unit {0})
found_or_error (s, true) = (s, ok tt)
found_or_error (s, false) = (s, err "not found")

unfoldable pub update_job_state : ℕ → String → JobState → Storage → Storage × Result (Unit {0})
update_job_state now job_id state s =
    found_or_error (update_job job_id (λ r. true) (with_state now state) s)

-- A statement that changed no row: `false` for a job that is there, and an error for none.
abbrev pub skipped : Result String → Result Bool
skipped (ok current) = ok false
skipped (err e) = err e

abbrev pub changed_or_skipped : String → Storage × Bool → Storage × Result Bool
changed_or_skipped job_id (s, true) = (s, ok true)
changed_or_skipped job_id (s, false) = (s, skipped (existing_state_text job_id s))

unfoldable pub update_job_state_unless_terminal :
    ℕ → String → JobState → Storage → Storage × Result Bool
update_job_state_unless_terminal now job_id state s =
    changed_or_skipped job_id
      (update_job job_id (λ r. text_unfinished r.state) (with_state now state) s)

unfoldable pub unconfirm_completed_job : ℕ → String → Storage → Storage × Result Bool
unconfirm_completed_job now job_id s =
    let (s', changed) =
      update_job job_id (λ r. r.state == "completed")
        (λ r. record r { state = "unconfirmed"; updated_at = now }) s in
    (s', ok changed)

unfoldable pub requeue_job : ℕ → String → String → Storage → Storage × Result Bool
requeue_job now job_id error_detail s = changed_or_skipped job_id (
    update_job job_id (λ r. text_requeuable r.state)
      (λ r. record r {
        state = "queued";
        retry_count = r.retry_count + 1;
        error_detail = error_detail;
        updated_at = now;
      })
      s)

unfoldable pub set_job_target_client : String → String → Storage → Storage
set_job_target_client job_id client_id s =
    (update_job job_id (λ r. true) (λ r. record r { target_client_id = some client_id }) s).0

unfoldable pub insert_job_event : PrintJobEvent → Storage → Storage
insert_job_event event s = record s { job_events = s.job_events ++ event ∷ [] }

unfoldable pub clear_jobs : Storage → Storage
clear_jobs s = record s { jobs = []; job_events = [] }
