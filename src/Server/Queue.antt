-- ===== src/Server/Queue.antt =====
-- The job queue (crates/devbridge-server/src/queue.rs): the storage, the channel of each connected
-- client, and the default queue of the jobs that no client is paired with. A channel is known by the
-- id of its connection; its receiver holds the ids sent to it, and a send to a receiver that is gone
-- is ignored. The notifications that wake the tasks are not kept.
pub mod Routing
pub mod Delivery
pub mod Unpaired
pub mod Unique
use Prim.Native.String.{◌++◌ as str_append}
use devbridge.Common.{
  ℕ, String, Bool, true, false, Option, none, some, List, [], ◌∷◌, ◌++◌, ◌==◌, if◌then◌else◌,
  is_some, string_eq,
}
use devbridge.Common.Result.{Result, ok, err}
use devbridge.Common.Table.{find, insert, update, delete, passes}
use devbridge.Server.Job.{
  JobState, JobEvent, JobMetadata, PrintJobEvent, PrintStage, event_new, unconfirmed,
}
use devbridge.Server.Storage.Jobs.{
  Storage, insert_job, get_job, insert_job_event, update_job_state,
  update_job_state_unless_terminal, unconfirm_completed_job, requeue_job as requeue_row,
}
use devbridge.Server.Storage.Lists.{get_pending_jobs, get_queued_jobs_for_client}
use devbridge.Server.Clients.{Registry, VirtualPrinter, get_virtual_printer_by_ipp_name}

pub record JobQueue : Type 0 where
  pub storage : Storage
  pub registry : Registry
  pub client_channels : List (String × String)
  pub receivers : List (String × List String)
  pub default_pending : List String
  pub job_events : List JobEvent

-- The ids of the jobs that no client is paired with.
abbrev pub unpaired_ids : List JobMetadata → List String
unpaired_ids [] = []
unpaired_ids (job ∷ jobs) =
    let rest = unpaired_ids jobs in if is_some job.target_client_id then rest else job.job_id ∷ rest

unfoldable pub new : Storage → Registry → JobQueue
new s registry = record {
  storage = s;
  registry = registry;
  client_channels = [];
  receivers = [];
  default_pending = unpaired_ids (get_pending_jobs s);
  job_events = [];
}

abbrev pub emit_event : JobEvent → JobQueue → JobQueue
emit_event event q = record q { job_events = q.job_events ++ event ∷ [] }

-- The map holds one channel for a machine: the new one takes the place of the one before.
unfoldable pub register_client : String → String → JobQueue → JobQueue
register_client machine_id connection_id q = record q {
  client_channels =
      update machine_id (λ c. true) (λ c. connection_id)
        (insert machine_id connection_id q.client_channels);
  receivers = insert connection_id [] q.receivers;
}

unfoldable pub is_active_connection : String → String → JobQueue → Bool
is_active_connection machine_id connection_id q =
    passes (λ stored_id. stored_id == connection_id) (find machine_id q.client_channels)

-- The rows of other machines.
abbrev pub without {ℓ} : {V : Type ℓ} → String → List (String × V) → List (String × V)
without k [] = []
without k ((j, v) ∷ rows) = let rest = without k rows in if j == k then rest else (j, v) ∷ rest

unfoldable pub unregister_client : String → String → JobQueue → JobQueue
unfolding is_active_connection
unregister_client machine_id connection_id q =
    if is_active_connection machine_id connection_id q
    then record q { client_channels = without machine_id q.client_channels }
    else q

-- The channel of the machine, and what reaches it: a machine with no channel is sent nothing.
unfoldable pub send_all : String → List String → JobQueue → JobQueue
send_all machine_id job_ids q = elim (find machine_id q.client_channels) [
  | none ↦ q
  | some c ↦ record q {
    receivers = update c (λ waiting. true) (λ waiting. waiting ++ job_ids) q.receivers;
  }
]

-- A job for a client goes to its channel, or waits in the storage; any other to the default queue.
unfoldable pub route : String → Option String → JobQueue → JobQueue
route job_id none q = record q { default_pending = q.default_pending ++ job_id ∷ [] }
route job_id (some client_id) q = send_all client_id (job_id ∷ []) q

abbrev paired_to : Option VirtualPrinter → Option String
paired_to none = none
paired_to (some vp) = vp.paired_client_id

abbrev retarget : JobMetadata → Option String → JobMetadata
retarget m none = m
retarget m (some client_id) = record m { target_client_id = some client_id }

-- The job with the client that its virtual printer is paired with.
unfoldable pub resolved : Registry → JobMetadata → JobMetadata
resolved registry m =
    if m.target_printer == ""
    then m
    else retarget m (paired_to (get_virtual_printer_by_ipp_name m.target_printer registry))

abbrev route_detail : JobMetadata → String
route_detail m = elim m.target_client_id [
  | none ↦ str_append m.target_printer " → default queue"
  | some client_id ↦ str_append m.target_printer (str_append " → " client_id)
]

abbrev pub routed_event : ℕ → JobMetadata → PrintJobEvent
routed_event now m = event_new now m.job_id PrintStage.routed true (route_detail m)

-- The job is stored, announced and recorded as routed.
unfoldable pub stored : ℕ → JobMetadata → String → JobQueue → JobQueue
stored now m spool_path q =
    emit_event (JobEvent.created m.job_id m.document_name m.requesting_user m.target_printer)
      (record q {
        storage = insert_job_event (routed_event now m) (insert_job m spool_path q.storage);
      })

unfoldable pub push : ℕ → JobMetadata → String → JobQueue → JobQueue
push now meta spool_path q =
    let m = resolved q.registry meta in
    route m.job_id m.target_client_id (stored now m spool_path q)

unfoldable pub next_job : JobQueue → JobQueue × Option String
next_job q = elim q.default_pending [
  | [] ↦ (q, none)
  | job_id ∷ rest ↦ (record q { default_pending = rest }, some job_id)
]

abbrev pub job_ids : List JobMetadata → List String
job_ids [] = []
job_ids (job ∷ jobs) = job.job_id ∷ job_ids jobs

unfoldable pub drain_pending_for_client : String → JobQueue → JobQueue
drain_pending_for_client client_id q =
    send_all client_id (job_ids (get_queued_jobs_for_client client_id q.storage)) q

abbrev user_of : Option JobMetadata → Option String
user_of none = none
user_of (some m) = m.requesting_user

abbrev pub changed_to : String → JobState → Storage → JobQueue → JobQueue
changed_to job_id state s q =
    emit_event (JobEvent.state_changed job_id state (user_of (get_job job_id s)))
      (record q { storage = s })

-- The dashboards hear of a change only when it happened.
abbrev pub announced : String → JobState → Storage × Result Bool → JobQueue → JobQueue × Result Bool
announced job_id state (s, ok true) q = (changed_to job_id state s q, ok true)
announced job_id state (s, ok false) q = (record q { storage = s }, ok false)
announced job_id state (s, err e) q = (record q { storage = s }, err e)

abbrev pub announced_or_failed :
    String → JobState → Storage × Result (Unit {0}) → JobQueue → JobQueue × Result (Unit {0})
announced_or_failed job_id state (s, ok u) q = (changed_to job_id state s q, ok u)
announced_or_failed job_id state (s, err e) q = (record q { storage = s }, err e)

unfoldable pub update_state : ℕ → String → JobState → JobQueue → JobQueue × Result (Unit {0})
update_state now job_id state q =
    announced_or_failed job_id state (update_job_state now job_id state q.storage) q

unfoldable pub update_state_unless_terminal :
    ℕ → String → JobState → JobQueue → JobQueue × Result Bool
update_state_unless_terminal now job_id state q =
    announced job_id state (update_job_state_unless_terminal now job_id state q.storage) q

unfoldable pub unconfirm_completed : ℕ → String → JobQueue → JobQueue × Result Bool
unconfirm_completed now job_id q =
    announced job_id unconfirmed (unconfirm_completed_job now job_id q.storage) q

abbrev pub target_of : Option JobMetadata → Option String
target_of none = none
target_of (some m) = m.target_client_id

-- A job that the storage did not requeue is never routed.
abbrev pub rerouted : String → Storage × Result Bool → JobQueue → JobQueue × Result Bool
rerouted job_id (s, ok true) q =
    (route job_id (target_of (get_job job_id s)) (record q { storage = s }), ok true)
rerouted job_id (s, ok false) q = (record q { storage = s }, ok false)
rerouted job_id (s, err e) q = (record q { storage = s }, err e)

unfoldable pub requeue_job : ℕ → String → String → JobQueue → JobQueue × Result Bool
requeue_job now job_id error_detail q =
    rerouted job_id (requeue_row now job_id error_detail q.storage) q
