-- ===== src/Server/Dispatch/Untouched.antt =====
-- The steps that leave the jobs as they are: connections, deliveries and heartbeats, and a new job for
-- every other job (crates/devbridge-server/src/dispatch.rs, queue.rs).
use devbridge.Common.{
  ℕ, String, ◌≡◌, refl, ap, ◌∙◌, true, false, Option, List, ◌==◌, arith, string_eq,
}
use devbridge.Common.Table.{find-insert, find-update}
use devbridge.Server.Job.{JobMetadata}
use devbridge.Server.Storage.Jobs.{Storage, insert_job, job_to_row, refreshed}
use devbridge.Server.Storage.States.{state_of, state-insert_job_event}
use devbridge.Server.Queue
use devbridge.Server.Queue.Unpaired.{storage-route, id-resolved}
use devbridge.Server.Dispatch.Messages.{ClientIdentity, DispatchService}
use devbridge.Server.Dispatch.Status.{heartbeat}
use devbridge.Server.Dispatch.Subscription.{
  subscribe_jobs, poll, wake, disconnect, take_job, receive,
}
use devbridge.Server.Dispatch.Effects.{job_state}

storage-send_all :
    (m : String) (ids : List String) (q : Queue.JobQueue)
    → (Queue.send_all m ids q).storage ≡ q.storage
unfolding Queue.send_all
storage-send_all m ids q = ground arith

state-insert_job :
    (j : String) (m : JobMetadata) (sp : String) (s : Storage)
    → (m.job_id == j) ≡ false
    → state_of j (insert_job m sp s) ≡ state_of j s
unfolding insert_job state_of
state-insert_job j m sp s h = ground (
  arith,
  h,
  find-update j m.job_id (λ r. true) (refreshed m) s.jobs,
  find-insert j m.job_id (job_to_row m sp) s.jobs,
)

pub state-push :
    (now : ℕ) (j : String) (m : JobMetadata) (sp : String) (q : Queue.JobQueue)
    → (m.job_id == j) ≡ false
    → job_state j (Queue.push now m sp q) ≡ job_state j q
unfolding Queue.push Queue.stored
state-push now j m sp q h =
    ap (state_of j) (storage-route r.job_id r.target_client_id _)
    ∙ state-insert_job_event j (Queue.routed_event now r) (insert_job r sp q.storage)
    ∙ state-insert_job j r sp q.storage (ap (λ k. k == j) (id-resolved q.registry m) ∙ h)
  where
    r : JobMetadata
    r = Queue.resolved q.registry m

pub storage-subscribe :
    (now : ℕ) (identity : ClientIdentity) (c : String) (peer : Option String) (d : DispatchService)
    → (subscribe_jobs now identity c peer d).0.queue.storage ≡ d.queue.storage
unfolding subscribe_jobs Queue.drain_pending_for_client Queue.register_client Queue.send_all
storage-subscribe now identity c peer d = ground arith

pub storage-poll :
    (trim : String → String) (m c : String) (d : DispatchService)
    → (poll trim m c d).0.queue.storage ≡ d.queue.storage
unfolding poll take_job receive Queue.next_job
storage-poll trim m c d = ground arith

pub storage-wake : (c : String) (d : DispatchService) → (wake c d).0.queue.storage ≡ d.queue.storage
unfolding wake receive
storage-wake c d = refl

pub storage-disconnect :
    (now : ℕ) (m c : String) (d : DispatchService)
    → (disconnect now m c d).queue.storage ≡ d.queue.storage
unfolding disconnect Queue.unregister_client
storage-disconnect now m c d = ground arith

pub storage-heartbeat :
    (now time : ℕ) (m : String) (q : Queue.JobQueue)
    → (heartbeat now m time q).0.storage ≡ q.storage
unfolding heartbeat
storage-heartbeat now time m q = ground arith
