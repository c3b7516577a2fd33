-- ===== src/Server/Dispatch/Trace.antt =====
-- The steps of the service, of the retries and of the reaper, in any order
-- (crates/devbridge-server/src/dispatch.rs, queue.rs; crates/devbridge-service/src/runtime.rs).
use devbridge.Common.{
  ℕ, String, Bool, false, ◌||◌, Option, none, some, List, [], ◌∷◌, ◌==◌, string_eq,
}
use devbridge.Server.Job.{JobMetadata, PrintJobEvent}
use devbridge.Server.Queue
use devbridge.Server.Dispatch.Messages.{
  ClientIdentity, PrintJob, JobStatusUpdate, JobCompletion, RetryConfig, DispatchService,
}
use devbridge.Server.Dispatch.Completion.{complete_job}
use devbridge.Server.Dispatch.Status.{apply_status_update, heartbeat, requeue_round}
use devbridge.Server.Dispatch.Subscription.{subscribe_jobs, poll, wake, disconnect}

pub data Event : Type 0 where
  push : JobMetadata → String → Event
  subscribe : ClientIdentity → String → Option String → Event
  pass wait_over ended : String → String → Event
  ping : String → ℕ → Event
  status : JobStatusUpdate → Event
  complete : JobCompletion → Event
  requeue : String → String → Event
  reap : Event

abbrev on_queue : (Queue.JobQueue → Queue.JobQueue) → DispatchService → DispatchService
on_queue f d = record d { queue = f d.queue }

module _ (trim : String → String) (parse_event : String → Option PrintJobEvent)
    (config : RetryConfig) where
  -- A step, and the job that it streams to a client.
  unfoldable pub step : ℕ → Event → DispatchService → DispatchService × Option PrintJob
  step now (Event.push m sp) d = (on_queue (Queue.push now m sp) d, none)
  step now (Event.subscribe identity c peer) d = ((subscribe_jobs now identity c peer d).0, none)
  step now (Event.pass m c) d = poll trim m c d
  step now (Event.wait_over m c) d = wake c d
  step now (Event.ended m c) d = (disconnect now m c d, none)
  step now (Event.ping m time) d = (on_queue (λ q. (heartbeat now m time q).0) d, none)
  step now (Event.status u) d =
      (on_queue (λ q. (apply_status_update parse_event now u q).0) d, none)
  step now (Event.complete c) d = ((complete_job now config c d).0, none)
  step now (Event.requeue k detail) d =
      (on_queue (λ q. (Queue.requeue_job now k detail q).0) d, none)
  step now Event.reap d = (on_queue (requeue_round now config) d, none)

  -- The service after a sequence of steps.
  unfoldable pub run : List (ℕ × Event) → DispatchService → DispatchService
  unfolding step
  run [] d = d
  run ((now, event) ∷ events) d = run events (step now event d).0

  -- The jobs that a sequence of steps streams.
  unfoldable pub streams : List (ℕ × Event) → DispatchService → List (Option PrintJob)
  unfolding step
  streams [] d = []
  streams ((now, event) ∷ events) d = (step now event d).1 ∷ streams events (step now event d).0

-- An event that stores a job under the id.
abbrev stores : String → Event → Bool
stores j (Event.push m sp) = m.job_id == j
stores j event = false

abbrev pub stores_any : String → List (ℕ × Event) → Bool
stores_any j [] = false
stores_any j ((now, event) ∷ events) = stores j event || stores_any j events

abbrev pub is_job : String → Option PrintJob → Bool
is_job j none = false
is_job j (some p) = p.job_id == j
