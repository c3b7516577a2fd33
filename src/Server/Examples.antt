-- ===== src/Server/Examples.antt =====
-- The server on concrete jobs, clients and steps, and each theorem at one of them.
mod Delivery
mod Ends
mod Downloads
mod Reports
use devbridge.Common.{
  ℕ, String, ◌≡◌, arith, refl, Bool, true, false, not, Option, none, some, List, [], ◌∷◌, ◌==◌,
  if◌then◌else◌, string_eq, All,
}
use devbridge.Common.Table.{HasUniqueKeys}
use devbridge.Common.Result.{Result, ok, err}
use devbridge.Common.Table.{find, HasUniqueKeys}
use devbridge.Server.Job.{
  JobMetadata, SqlAgrees, is_finished, is_requeuable, is_completed, queued, failed, unconfirmed,
  str_to_state, state_to_str, sql_conditions, str_to_state-state_to_str,
}
use devbridge.Server.Storage.Jobs.{
  JobRow, Storage, update_job_state_unless_terminal, unconfirm_completed_job, requeue_job,
  get_spool_path,
}
use devbridge.Server.Storage.Lists.{fail_interrupted_jobs}
use devbridge.Server.Storage.States.{
  state_of, moved, holds, reported, update_unless_terminal_lem, requeue_job_lem,
  unconfirm_completed_lem,
}
use devbridge.Server.Storage.Recovery.{Recovers, fail_interrupted_jobs_lem}
use devbridge.Server.Clients.{
  ClientRegistration, Registry, approved, pending, get_client, upsert_client, pairing_of,
  pairing-upsert_client,
}
use devbridge.Server.Queue
use devbridge.Server.Queue.Routing.{is_active-unregister}
use devbridge.Server.Queue.Delivery.{contains, mailbox, reconnect_delivers_held, new_holds_unpaired}
use devbridge.Server.Queue.Unpaired.{DefaultUnpaired, push-DefaultUnpaired, requeue-DefaultUnpaired}
use devbridge.Server.Dispatch.Messages.{JobCompletion, RetryConfig, DispatchService}
use devbridge.Server.Dispatch.Peers.{
  peer_of, connected, disconnected, peer_of-connected-disconnected,
}
use devbridge.Server.Dispatch.Payload.{
  PayloadChunk, bytes_of, IsRun, download_payload, download_payload_complete,
}
use devbridge.Server.Dispatch.Completion.{complete_job}
use devbridge.Server.Dispatch.Effects.{job_state}
use devbridge.Server.Dispatch.Ends.{complete_job-state}
use devbridge.Server.Dispatch.Trace.{Event, streams, is_job}
use devbridge.Server.Dispatch.Finished.{finished_never_streamed}

abbrev pub job_row : String → Option String → JobRow
job_row state target = record {
  document_name = "Invoice";
  target_printer = "office";
  target_client_id = target;
  copies = 1;
  paper_size = "A4";
  duplex = false;
  color = false;
  payload_size = 3;
  payload_sha256 = "";
  state = state;
  retry_count = 0;
  error_detail = "";
  requesting_user = none;
  spool_path = "/spool/1";
  created_at = 10;
  updated_at = 10;
}

abbrev pub shop : Storage
shop = record {
  jobs =
      ("held", job_row "queued" (some "till"))
      ∷ ("busy", job_row "printing" none)
      ∷ ("done", job_row "completed" none)
      ∷ ("open", job_row "queued" none)
      ∷ [];
  job_events = [];
}

abbrev pub till : ClientRegistration
till = record {
  hostname = "till";
  printer_names = [];
  client_version = "1.0";
  last_seen = 5;
  is_online = true;
  pairing_state = approved;
  virtual_printer_name = none;
  virtual_printer_driver = none;
}

abbrev pub clients : Registry
clients = record { clients = ("till", till) ∷ []; virtual_printers = [] }

abbrev pub queue : Queue.JobQueue
queue = record {
  storage = shop;
  registry = clients;
  client_channels = ("till", "new") ∷ [];
  receivers = ("new", []) ∷ [];
  default_pending = "open" ∷ [];
  job_events = [];
}

abbrev pub service : DispatchService
service = record { queue = queue; connected_clients = 1; stream_peers = []; delayed = [] }

abbrev pub retries : RetryConfig
retries = record { max_retries = 3; retry_delay_secs = 30 }

abbrev pub ends : String → Bool → Bool → JobCompletion
ends job_id success maybe = record {
  job_id = job_id;
  success = success;
  error_detail = "paper jam";
  pages_printed = 0;
  verification_method = "";
  verification_evidence = "";
  client_id = "till";
  unconfirmed = maybe;
}

abbrev pub new_job : JobMetadata
new_job = record {
  job_id = "new";
  document_name = "Label";
  target_printer = "";
  target_client_id = none;
  copies = 1;
  paper_size = "A6";
  duplex = false;
  color = false;
  payload_size = 1;
  payload_sha256 = "";
  state = queued;
  retry_count = 0;
  error_detail = "";
  requesting_user = none;
  created_at = 20;
  updated_at = 20;
}

-- What the tests compute through.
pub server_runs : Unit {0}
unfolding find get_client Queue.is_active_connection get_spool_path state_of str_to_state
server_runs = tt

pub shop-HasUniqueKeys : HasUniqueKeys shop.jobs
unfolding server_runs
shop-HasUniqueKeys = (refl, (refl, (refl, (refl, tt))))

sql_conditions_example : SqlAgrees "paused"
sql_conditions_example = sql_conditions "paused"

requeue_job_lem_example :
    ((j : String)
      → state_of j (requeue_job 30 "busy" "stale" shop).0
        ≡ (if "busy" == j then moved is_requeuable queued (state_of j shop) else state_of j shop))
    × ((requeue_job 30 "busy" "stale" shop).1 ≡ reported is_requeuable (state_of "busy" shop))
requeue_job_lem_example = requeue_job_lem 30 "busy" "stale" shop

fail_interrupted_jobs_lem_example : Recovers shop (fail_interrupted_jobs 30 "interrupted" shop)
fail_interrupted_jobs_lem_example = fail_interrupted_jobs_lem 30 "interrupted" shop
