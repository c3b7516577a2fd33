-- ===== src/Server/Dispatch/Subscription.antt =====
-- A client's job stream: its start, what it is sent, and its end (`subscribe_jobs` and `send_job` of
-- crates/devbridge-server/src/dispatch.rs). A step of the loop is one function for each place where
-- the loop takes a job.
use devbridge.Common.{
  ℕ, ◌+◌, ◌-◌, ◌%◌, ◌^◌, String, Bool, true, false, Option, none, some, List, [], ◌∷◌, ◌==◌,
  if◌then◌else◌, string_eq,
}
use devbridge.Common.Result.{Result, ok, err}
use devbridge.Common.Table.{update}
use devbridge.Server.Job.{JobMetadata, is_queued}
use devbridge.Server.Storage.Jobs.{get_job}
use devbridge.Server.Clients.{
  ClientRegistration, approved, rejected, pending, get_client, upsert_client, set_client_online,
  takes_default_queue,
}
use devbridge.Server.Queue
use devbridge.Server.Queue.Delivery.{mailbox}
use devbridge.Server.Dispatch.Messages.{ClientIdentity, PrintJob, DispatchService}
use devbridge.Server.Dispatch.Peers.{connected, disconnected}

abbrev none_if_empty : String → Option String
none_if_empty text = if text == "" then none else some text

abbrev pub registration : ℕ → ClientIdentity → ClientRegistration
registration now identity = record {
  hostname = identity.hostname;
  printer_names = identity.printer_names;
  client_version = identity.client_version;
  last_seen = now;
  is_online = true;
  pairing_state = pending;
  virtual_printer_name = none_if_empty identity.virtual_printer_name;
  virtual_printer_driver = none_if_empty identity.virtual_printer_driver;
}

abbrev is_rejected : Option ClientRegistration → Bool
is_rejected none = false
is_rejected (some c) = elim c.pairing_state [ pending ↦ false | approved ↦ false | rejected ↦ true ]

abbrev online : ℕ → String → Bool → Queue.JobQueue → Queue.JobQueue
online now machine_id b q = record q { registry = set_client_online now machine_id b q.registry }

-- The connection is registered before the client is shown online; held jobs are drained last.
abbrev started : ℕ → String → String → Option String → DispatchService → DispatchService
started now machine_id connection_id peer d = record d {
  queue =
      Queue.drain_pending_for_client machine_id
        (online now machine_id true (Queue.register_client machine_id connection_id d.queue));
  stream_peers = connected machine_id connection_id peer d.stream_peers;
  connected_clients = (d.connected_clients + 1) % 2 ^ 64;
}

-- `connection_id` is the new id that the service draws.
unfoldable pub subscribe_jobs :
    ℕ
    → ClientIdentity
    → String
    → Option String
    → DispatchService
    → DispatchService × Result (Unit {0})
subscribe_jobs now identity connection_id peer d =
    let registry = upsert_client identity.machine_id (registration now identity) d.queue.registry in
    let d' = record d { queue = record d.queue { registry = registry } } in
    if is_rejected (get_client identity.machine_id registry)
    then (d', err "client has been rejected")
    else (started now identity.machine_id connection_id peer d', ok tt)

abbrev print_job : JobMetadata → PrintJob
print_job m = record {
  job_id = m.job_id;
  target_printer = m.target_printer;
  document_name = m.document_name;
  copies = m.copies;
  paper_size = m.paper_size;
  duplex = m.duplex;
  color = m.color;
  payload_size = m.payload_size;
  payload_sha256 = m.payload_sha256;
  created_at = m.created_at;
  retry_count = m.retry_count;
}

abbrev pub to_send : Option JobMetadata → Option PrintJob
to_send none = none
to_send (some m) = if is_queued m.state then some (print_job m) else none

-- What is streamed for a job id: the job, if it still waits.
unfoldable pub send_job : String → Queue.JobQueue → Option PrintJob
send_job job_id q = to_send (get_job job_id q.storage)

abbrev pub sent_for : Option String → Queue.JobQueue → Option PrintJob
sent_for none q = none
sent_for (some job_id) q = send_job job_id q

abbrev pub first : List String → Option String
first [] = none
first (i ∷ ids) = some i

abbrev rest_of : List String → List String
rest_of [] = []
rest_of (i ∷ ids) = ids

-- The first id that waits for the connection is taken.
unfoldable pub receive : String → Queue.JobQueue → Queue.JobQueue × Option String
receive connection_id q = (
  record q { receivers = update connection_id (λ w. true) rest_of q.receivers },
  first (mailbox connection_id q),
)

abbrev pub is_approved : Option ClientRegistration → Bool
is_approved none = false
is_approved (some c) = elim c.pairing_state [ pending ↦ false | approved ↦ true | rejected ↦ false ]

-- `trim` is the text without the white space round it.
module _ (trim : String → String) where
  abbrev pub may_take_default : Option ClientRegistration → Bool
  may_take_default none = true
  may_take_default (some c) = takes_default_queue trim c

  abbrev from_default : Bool → Queue.JobQueue → Queue.JobQueue × Option String
  from_default false q = (q, none)
  from_default true q = Queue.next_job q

  abbrev from_channel_or_default :
      Bool → Queue.JobQueue → Queue.JobQueue × Option String → Queue.JobQueue × Option String
  from_channel_or_default default_too q (q', some job_id) = (q', some job_id)
  from_channel_or_default default_too q (q', none) = from_default default_too q

  -- The id that a pass of the loop takes, up to where it waits.
  unfoldable pub take_job : String → String → Queue.JobQueue → Queue.JobQueue × Option String
  take_job machine_id connection_id q =
      let client = get_client machine_id q.registry in
      if is_approved client
      then from_channel_or_default (may_take_default client) q (receive connection_id q)
      else (q, none)

  unfoldable pub poll : String → String → DispatchService → DispatchService × Option PrintJob
  unfolding take_job
  poll machine_id connection_id d =
      let (q, job_id) = take_job machine_id connection_id d.queue in
      (record d { queue = q }, sent_for job_id q)

-- The loop waits with its gate passed, and an id comes in on its channel.
unfoldable pub wake : String → DispatchService → DispatchService × Option PrintJob
unfolding receive
wake connection_id d =
    let (q, job_id) = receive connection_id d.queue in (record d { queue = q }, sent_for job_id q)

abbrev ended : ℕ → String → String → Queue.JobQueue → Queue.JobQueue
ended now machine_id connection_id q =
    if Queue.is_active_connection machine_id connection_id q
    then online now machine_id false (Queue.unregister_client machine_id connection_id q)
    else q

abbrev dropped : String → Queue.JobQueue → Queue.JobQueue
dropped connection_id q = record q { receivers = Queue.without connection_id q.receivers }

-- The cleanup of a stream that ended; the receiver goes with the task.
unfoldable pub disconnect : ℕ → String → String → DispatchService → DispatchService
disconnect now machine_id connection_id d = record d {
  queue = dropped connection_id (ended now machine_id connection_id d.queue);
  stream_peers = disconnected machine_id connection_id d.stream_peers;
  connected_clients = (d.connected_clients + 2 ^ 64 - 1) % 2 ^ 64;
}
