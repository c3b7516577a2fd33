-- ===== src/Server/Queue/Unique.antt =====
-- The statements on jobs and the operations of the queue keep the ids of the stored jobs unique
-- (crates/devbridge-server/src/storage.rs, queue.rs).
use devbridge.Common.{
  ℕ, ◌+◌, String, ◌≡◌, sym, Bool, true, false, ◌==◌, if◌then◌else◌, is_some, string_eq,
}
use mathlib.Core.Path.{subst}
use devbridge.Common.Result.{Result, ok, err}
use devbridge.Common.Table.{
  find, insert, update, HasUniqueKeys, update-HasUniqueKeys, insert-HasUniqueKeys,
}
use devbridge.Server.Job.{JobState, JobMetadata, text_unfinished, text_requeuable, unconfirmed}
use devbridge.Server.Storage.Jobs.{
  JobRow, Storage, update_job, found_or_error, changed_or_skipped, update_job_state,
  update_job_state_unless_terminal, unconfirm_completed_job, requeue_job, insert_job,
  insert_job_event, get_job, refreshed, job_to_row, with_state,
}
use devbridge.Server.Queue
use devbridge.Server.Queue.Unpaired.{storage-route}

abbrev pub IsUnique : Storage → Type 0
IsUnique s = HasUniqueKeys s.jobs

pub same_storage : {s t : Storage} → s ≡ t → IsUnique t → IsUnique s
same_storage e h = subst IsUnique (sym e) h

update_job-IsUnique :
    (k : String) (test : JobRow → Bool) (set : JobRow → JobRow) (s : Storage)
    → IsUnique s
    → IsUnique (update_job k test set s).0
unfolding update_job
update_job-IsUnique k test set s h = update-HasUniqueKeys k test set s.jobs h

changed_or_skipped-IsUnique :
    (k : String) (p : Storage × Bool) → IsUnique p.0 → IsUnique (changed_or_skipped k p).0
changed_or_skipped-IsUnique k (s, true) h = h
changed_or_skipped-IsUnique k (s, false) h = h

found_or_error-IsUnique : (p : Storage × Bool) → IsUnique p.0 → IsUnique (found_or_error p).0
found_or_error-IsUnique (s, true) h = h
found_or_error-IsUnique (s, false) h = h

insert_job-IsUnique :
    (m : JobMetadata) (sp : String) (s : Storage) → IsUnique s → IsUnique (insert_job m sp s)
unfolding insert_job
insert_job-IsUnique m sp s h = either (is_some (find m.job_id s.jobs))
  where
    either :
        (b : Bool)
        → IsUnique (
            if b
            then record s { jobs = update m.job_id (λ r. true) (refreshed m) s.jobs }
            else record s { jobs = insert m.job_id (job_to_row m sp) s.jobs })
    either true = update-HasUniqueKeys m.job_id (λ r. true) (refreshed m) s.jobs h
    either false = insert-HasUniqueKeys m.job_id (job_to_row m sp) s.jobs h

announced-IsUnique :
    (k : String) (st : JobState) (p : Storage × Result Bool) (q : Queue.JobQueue)
    → IsUnique p.0
    → IsUnique (Queue.announced k st p q).0.storage
announced-IsUnique k st (s, ok true) q h = h
announced-IsUnique k st (s, ok false) q h = h
announced-IsUnique k st (s, err e) q h = h

module _ (k : String) (test : JobRow → Bool) (set : JobRow → JobRow) (s : Storage)
    (h : IsUnique s) where
  write-IsUnique : IsUnique (changed_or_skipped k (update_job k test set s)).0
  write-IsUnique =
      changed_or_skipped-IsUnique k (update_job k test set s) (update_job-IsUnique k test set s h)

  found-IsUnique : IsUnique (found_or_error (update_job k test set s)).0
  found-IsUnique =
      found_or_error-IsUnique (update_job k test set s) (update_job-IsUnique k test set s h)

pub update_state-IsUnique :
    (now : ℕ) (k : String) (st : JobState) (q : Queue.JobQueue)
    → IsUnique q.storage
    → IsUnique (Queue.update_state now k st q).0.storage
unfolding Queue.update_state update_job_state
update_state-IsUnique now k st q h =
    announced (update_job_state now k st q.storage)
      (found-IsUnique k (λ r. true) (with_state now st) q.storage h)
  where
    announced :
        (p : Storage × Result (Unit {0}))
        → IsUnique p.0
        → IsUnique (Queue.announced_or_failed k st p q).0.storage
    announced (s, ok u) h = h
    announced (s, err e) h = h

pub update_unless_terminal-IsUnique :
    (now : ℕ) (k : String) (st : JobState) (q : Queue.JobQueue)
    → IsUnique q.storage
    → IsUnique (Queue.update_state_unless_terminal now k st q).0.storage
unfolding Queue.update_state_unless_terminal update_job_state_unless_terminal
update_unless_terminal-IsUnique now k st q h =
    announced-IsUnique k st (update_job_state_unless_terminal now k st q.storage) q
      (write-IsUnique k (λ r. text_unfinished r.state) (with_state now st) q.storage h)

pub unconfirm_completed-IsUnique :
    (now : ℕ) (k : String) (q : Queue.JobQueue)
    → IsUnique q.storage
    → IsUnique (Queue.unconfirm_completed now k q).0.storage
unfolding Queue.unconfirm_completed unconfirm_completed_job
unconfirm_completed-IsUnique now k q h =
    announced-IsUnique k unconfirmed (unconfirm_completed_job now k q.storage) q (
      update_job-IsUnique k (λ r. r.state == "completed")
        (λ r. record r { state = "unconfirmed"; updated_at = now }) q.storage h)

pub requeue_job-IsUnique :
    (now : ℕ) (k detail : String) (q : Queue.JobQueue)
    → IsUnique q.storage
    → IsUnique (Queue.requeue_job now k detail q).0.storage
unfolding Queue.requeue_job requeue_job
requeue_job-IsUnique now k detail q h = rerouted (requeue_job now k detail q.storage) (
    write-IsUnique k (λ r. text_requeuable r.state)
      (λ r. record r {
        state = "queued";
        retry_count = r.retry_count + 1;
        error_detail = detail;
        updated_at = now;
      })
      q.storage h)
  where
    rerouted :
        (p : Storage × Result Bool) → IsUnique p.0 → IsUnique (Queue.rerouted k p q).0.storage
    rerouted (s, ok true) h =
        same_storage (storage-route k (Queue.target_of (get_job k s)) (record q { storage = s })) h
    rerouted (s, ok false) h = h
    rerouted (s, err e) h = h

pub push-IsUnique :
    (now : ℕ) (m : JobMetadata) (sp : String) (q : Queue.JobQueue)
    → IsUnique q.storage
    → IsUnique (Queue.push now m sp q).storage
unfolding Queue.push Queue.stored insert_job_event
push-IsUnique now m sp q h =
    same_storage
      (storage-route (Queue.resolved q.registry m).job_id
        (Queue.resolved q.registry m).target_client_id
        (Queue.stored now (Queue.resolved q.registry m) sp q))
      (insert_job-IsUnique (Queue.resolved q.registry m) sp q.storage h)
