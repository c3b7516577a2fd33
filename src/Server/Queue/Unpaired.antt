-- ===== src/Server/Queue/Unpaired.antt =====
-- The default queue holds the jobs that no client is paired with, and no other
-- (crates/devbridge-server/src/queue.rs).
use devbridge.Common.{
  ℕ, String, ◌≡◌, refl, sym, ap, ◌∙◌, Bool, true, false, ◌||◌, Option, none, some, [], ◌∷◌, ◌++◌,
  ◌==◌, arith, ==_refl, if◌then◌else◌, is_some, string_eq, Option-cases, inl, inr, any-append,
}
use devbridge.Common.Table.{find, find-insert, find-update, passes}
use devbridge.Server.Job.{JobMetadata}
use devbridge.Server.Storage.Jobs.{
  JobRow, Storage, row_to_job, insert_job, insert_job_event, job_to_row, update_job,
  changed_or_skipped, existing_state_text, requeue_job, get_job,
}
use devbridge.Server.Clients.{Registry}
use devbridge.Server.Queue
use devbridge.Server.Queue.Delivery.{contains, is_unpaired}

-- Every job of the default queue is stored, with no client that it is routed to.
abbrev pub DefaultUnpaired : Queue.JobQueue → Type 0
DefaultUnpaired q =
    (j : String)
    → contains j q.default_pending ≡ true
    → passes is_unpaired (find j q.storage.jobs) ≡ true

pub id-resolved :
    (registry : Registry) (m : JobMetadata) → (Queue.resolved registry m).job_id ≡ m.job_id
unfolding Queue.resolved
id-resolved registry m = ground arith

default-route :
    (k : String) (target : Option String) (q : Queue.JobQueue)
    → (Queue.route k target q).default_pending
      ≡ (if is_some target then q.default_pending else q.default_pending ++ k ∷ [])
unfolding Queue.route Queue.send_all
default-route k none q = refl
default-route k (some c) q = ground arith

pub storage-route :
    (k : String) (target : Option String) (q : Queue.JobQueue)
    → (Queue.route k target q).storage ≡ q.storage
unfolding Queue.route Queue.send_all
storage-route k none q = refl
storage-route k (some c) q = ground arith

-- A routed job joins the default queue only where no client is paired with it.
route-DefaultUnpaired :
    (k : String) (target : Option String) (q : Queue.JobQueue)
    → (is_some target ≡ false → passes is_unpaired (find k q.storage.jobs) ≡ true)
    → DefaultUnpaired q
    → DefaultUnpaired (Queue.route k target q)
route-DefaultUnpaired k none q new h j c =
    unfold Queue.route in ground (arith, new refl, h j, either, string_eq.beq_iff k j)
  where
    either : (contains j q.default_pending || (k == j || false)) ≡ true
    either = sym (any-append (λ i. i == j) q.default_pending (k ∷ [])) ∙ (unfold Queue.route in c)
route-DefaultUnpaired k (some c) q new h j e =
    rw (storage-route k (some c) q) (h j (sym (ap (contains j) (default-route k (some c) q)) ∙ e))

-- Where every job of the default queue is stored and routed to no client, that is so after a push of a
-- job with a new id.
pub push-DefaultUnpaired :
    (now : ℕ) (m : JobMetadata) (sp : String) (q : Queue.JobQueue)
    → find m.job_id q.storage.jobs ≡ none
    → DefaultUnpaired q
    → DefaultUnpaired (Queue.push now m sp q)
unfolding Queue.push
push-DefaultUnpaired now m sp q fresh h =
    route-DefaultUnpaired r.job_id r.target_client_id (Queue.stored now r sp q)
      (λ e. stored_row r.job_id ∙ ground (arith, not_there, e, ==_refl r.job_id))
      (λ j c.
        stored_row j
        ∙ ground (arith, not_there, h j (unfold Queue.stored in c), string_eq.beq_iff r.job_id j))
  where
    r : JobMetadata
    r = Queue.resolved q.registry m

    not_there : find r.job_id q.storage.jobs ≡ none
    not_there = ap (λ k. find k q.storage.jobs) (id-resolved q.registry m) ∙ fresh

    stored_row :
        (j : String)
        → passes is_unpaired (find j (Queue.stored now r sp q).storage.jobs)
          ≡ passes is_unpaired (
              if is_some (find j q.storage.jobs)
              then find j q.storage.jobs
              else if r.job_id == j
              then some (job_to_row r sp)
              else none)
    stored_row j =
        unfold Queue.stored insert_job insert_job_event in
        ground (arith, not_there, find-insert j r.job_id (job_to_row r sp) q.storage.jobs)

unpaired-update_job :
    (j k : String) (test : JobRow → Bool) (set : JobRow → JobRow) (s : Storage)
    → ((r : JobRow) → is_unpaired (set r) ≡ is_unpaired r)
    → passes is_unpaired (find j (update_job k test set s).0.jobs)
      ≡ passes is_unpaired (find j s.jobs)
unfolding update_job
unpaired-update_job j k test set s same = elim (Option-cases (find j s.jobs)) [
  | inl e ↦ ground (arith, e, find-update j k test set s.jobs)
  | inr (r, e) ↦ ground (arith, e, same r, find-update j k test set s.jobs)
]

there-update_job :
    (k : String) (test : JobRow → Bool) (set : JobRow → JobRow) (s : Storage)
    → (update_job k test set s).1 ≡ true
    → is_some (find k (update_job k test set s).0.jobs) ≡ true
unfolding update_job
there-update_job k test set s h = ground (arith, find-update k k test set s.jobs, ==_refl k)

rerouted-DefaultUnpaired :
    (k : String) (s : Storage) (p : Storage × Bool) (q : Queue.JobQueue)
    → ((j : String)
        → passes is_unpaired (find j p.0.jobs) ≡ passes is_unpaired (find j q.storage.jobs))
    → (p.1 ≡ true → is_some (find k p.0.jobs) ≡ true)
    → DefaultUnpaired q
    → DefaultUnpaired (Queue.rerouted k (changed_or_skipped k p) q).0
rerouted-DefaultUnpaired k s (s', true) q same there h =
    route-DefaultUnpaired k (Queue.target_of (get_job k s')) (record q { storage = s' })
      (λ e. unfold get_job row_to_job in ground (arith, there refl, e)) (λ j c. same j ∙ h j c)
rerouted-DefaultUnpaired k s (s', false) q same there h =
    unfold existing_state_text in ground (arith, h, same)

-- Where every job of the default queue is stored and routed to no client, that is so after a requeue
-- of any job.
pub requeue-DefaultUnpaired :
    (now : ℕ) (k detail : String) (q : Queue.JobQueue)
    → DefaultUnpaired q
    → DefaultUnpaired (Queue.requeue_job now k detail q).0
unfolding Queue.requeue_job requeue_job
requeue-DefaultUnpaired now k detail q h =
    rerouted-DefaultUnpaired k q.storage _ q
      (λ j. unpaired-update_job j k _ _ q.storage (λ r. refl)) (there-update_job k _ _ q.storage) h
