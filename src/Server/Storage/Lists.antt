-- ===== src/Server/Storage/Lists.antt =====
-- The selections over all jobs, and the crash recovery of a client's own job history
-- (crates/devbridge-server/src/storage.rs). Times are seconds; the texts that the code compares sort
-- as the times do.
use devbridge.Common.{
  ℕ, ◌/◌, String, ◌&&◌, Bool, false, Option, none, some, List, [], ◌∷◌, ◌==◌, ltb, leb, filter,
  length, sort_by, string_eq, nat_eq,
}
use devbridge.Common.Table.{update_all}
use devbridge.Server.Job.{JobMetadata, PrintStage, text_active, event_new}
use devbridge.Server.Storage.Jobs.{JobRow, Storage, row_to_job, insert_job_event}

abbrev pub on_row {ℓ} : {A : Type ℓ} → (JobRow → A) → String × JobRow → A
on_row f (job_id, r) = f r

abbrev pub by_created : String × JobRow → String × JobRow → Bool
by_created (i, a) (j, b) = leb a.created_at b.created_at

abbrev by_updated : String × JobRow → String × JobRow → Bool
by_updated (i, a) (j, b) = leb a.updated_at b.updated_at

abbrev pub jobs_of : List (String × JobRow) → List JobMetadata
jobs_of [] = []
jobs_of ((job_id, r) ∷ rows) = row_to_job job_id r ∷ jobs_of rows

abbrev pub ids_of : List (String × JobRow) → List String
ids_of [] = []
ids_of ((job_id, r) ∷ rows) = job_id ∷ ids_of rows

unfoldable pub get_retriable_jobs : ℕ → Storage → List JobMetadata
get_retriable_jobs max_retries s = jobs_of (
    sort_by by_updated
      (filter (on_row (λ r. r.state == "failed" && ltb r.retry_count max_retries)) s.jobs))

unfoldable pub get_stale_jobs : ℕ → Storage → List JobMetadata
get_stale_jobs older_than s = jobs_of (
    sort_by by_updated
      (filter (on_row (λ r. text_active r.state && ltb r.updated_at older_than)) s.jobs))

unfoldable pub get_pending_jobs : Storage → List JobMetadata
get_pending_jobs s =
    jobs_of (sort_by by_created (filter (on_row (λ r. r.state == "queued")) s.jobs))

abbrev pub targets : String → Option String → Bool
targets client none = false
targets client (some c) = c == client

unfoldable pub get_queued_jobs_for_client : String → Storage → List JobMetadata
get_queued_jobs_for_client client_id s = jobs_of (
    sort_by by_created
      (filter (on_row (λ r. targets client_id r.target_client_id && r.state == "queued")) s.jobs))

-- The days of two times, in UTC.
unfoldable pub count_jobs_today : ℕ → Storage → ℕ
count_jobs_today now s = length (filter (on_row (λ r. r.created_at / 86400 == now / 86400)) s.jobs)

abbrev pub row_active : JobRow → Bool
row_active r = text_active r.state

unfoldable pub count_active_jobs : Storage → ℕ
count_active_jobs s = length (filter (on_row row_active) s.jobs)

abbrev pub interrupted : ℕ → String → JobRow → JobRow
interrupted now reason r = record r { state = "failed"; error_detail = reason; updated_at = now }

unfoldable pub insert_failures : ℕ → String → List String → Storage → Storage
insert_failures now reason [] s = s
insert_failures now reason (job_id ∷ ids) s =
    insert_failures now reason ids
      (insert_job_event (event_new now job_id PrintStage.failed false reason) s)

unfoldable pub fail_rows : ℕ → String → List String → Storage → Storage × ℕ
unfolding insert_failures
fail_rows now reason [] s = (s, 0)
fail_rows now reason (job_id ∷ ids) s = (
  insert_failures now reason (job_id ∷ ids)
      (record s { jobs = update_all row_active (interrupted now reason) s.jobs }),
  length (filter (on_row row_active) s.jobs),
)

-- Every job in progress is failed, with one audit event each; how many there were.
unfoldable pub fail_interrupted_jobs : ℕ → String → Storage → Storage × ℕ
unfolding fail_rows
fail_interrupted_jobs now reason s =
    fail_rows now reason (ids_of (sort_by by_created (filter (on_row row_active) s.jobs))) s
