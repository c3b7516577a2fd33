-- ===== src/Server/Dispatch/Messages.antt =====
-- The messages of the service (proto/devbridge.proto) and the state it keeps
-- (`DispatchService` of crates/devbridge-server/src/dispatch.rs).
use devbridge.Common.{ℕ, String, Bool, Option, List}
use devbridge.Server.Queue.{JobQueue}

-- The `JobState` of the wire.
pub data WireState : Type 0 where
  unspecified queued downloading printing completed failed cancelled rendering sending : WireState

pub record ClientIdentity : Type 0 where
  pub machine_id : String
  pub hostname : String
  pub printer_names : List String
  pub client_version : String
  pub virtual_printer_name : String
  pub virtual_printer_driver : String

pub record PrintJob : Type 0 where
  pub job_id : String
  pub target_printer : String
  pub document_name : String
  pub copies : ℕ
  pub paper_size : String
  pub duplex : Bool
  pub color : Bool
  pub payload_size : ℕ
  pub payload_sha256 : String
  pub created_at : ℕ
  pub retry_count : ℕ

pub record JobStatusUpdate : Type 0 where
  pub job_id : String
  pub state : WireState
  pub message : String

pub record JobCompletion : Type 0 where
  pub job_id : String
  pub success : Bool
  pub error_detail : String
  pub pages_printed : ℕ
  pub verification_method : String
  pub verification_evidence : String
  pub client_id : String
  pub unconfirmed : Bool

-- A task that sleeps before it requeues a job.
pub record DelayedRequeue : Type 0 where
  pub delay_secs : ℕ
  pub job_id : String
  pub error_detail : String

pub record RetryConfig : Type 0 where
  pub max_retries : ℕ
  pub retry_delay_secs : ℕ

-- `stream_peers`: the connection and the peer address of every client's current job stream. The
-- delayed requeues are the tasks that the service has spawned.
pub record DispatchService : Type 0 where
  pub queue : JobQueue
  pub connected_clients : ℕ
  pub stream_peers : List (String × (String × Option String))
  pub delayed : List DelayedRequeue
