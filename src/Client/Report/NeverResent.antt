-- ===== src/Client/Report/NeverResent.antt =====
-- What the client reports of a print, and what the server sends after it: print_backend.rs and
-- receiver.rs of crates/devbridge-client/src with dispatch.rs of crates/devbridge-server/src.
use devbridge.Common.{
  ℕ, String, ◌≡◌, refl, ap, ◌∙◌, Bool, true, false, Option, none, some, List, string_eq, ==_refl,
  is_some, All,
}
use devbridge.Server.Job.{JobState, PrintJobEvent, is_finished}
use devbridge.Server.Storage.States.{holds}
use devbridge.Server.Dispatch.Messages.{JobCompletion, RetryConfig, DispatchService}
use devbridge.Server.Dispatch.Completion.{complete_job}
use devbridge.Server.Dispatch.Effects.{job_state, at_job}
use devbridge.Server.Dispatch.Ends.{complete_job-state, after_completion, mapped}
use devbridge.Server.Dispatch.Trace.{Event, streams, stores_any, is_job}
use devbridge.Server.Dispatch.Finished.{IsFinished, finished_never_streamed}
use devbridge.Client.InFlight.{PrintError, PrintDispatch, timed_out, duplicate_suppressed}
use devbridge.Client.InFlight
use devbridge.Client.Report.{
  SentJob, completion_of, print_result, report_of, is_unconfirmed, print_timeout_error,
}

-- The printer may have the document: it was printed, its end is unknown, or the time ran out after
-- the printer had accepted it.
abbrev pub reached : Bool → PrintDispatch → Bool
reached accepted (InFlight.completed none) = true
reached accepted (InFlight.completed (some e)) = e.unconfirmed
reached accepted timed_out = accepted
reached accepted duplicate_suppressed = false

-- The completion that the client sends after a dispatch.
abbrev pub reported :
    (ℕ → String) → String → String × String → ℕ → SentJob → Bool → PrintDispatch → JobCompletion
reported show_nat machine_id verification timeout_secs job accepted dispatch =
    completion_of machine_id verification job (print_result show_nat timeout_secs accepted dispatch)

finished-reported :
    (show_nat : ℕ → String) (machine_id : String) (verification : String × String)
    (timeout_secs : ℕ) (job : SentJob) (accepted : Bool) (dispatch : PrintDispatch)
    → reached accepted dispatch ≡ true
    → (st : JobState)
    → is_finished (
        after_completion
          (reported show_nat machine_id verification timeout_secs job accepted dispatch)
          st)
      ≡ true
unfolding completion_of print_result report_of is_unconfirmed print_timeout_error
finished-reported show_nat m v t job accepted (InFlight.completed none) h st = refl
finished-reported show_nat m v t job accepted (InFlight.completed (some e)) h st = rw h refl
finished-reported show_nat m v t job true timed_out h st = refl
finished-reported show_nat m v t job false timed_out h st = absurd (cc h)
finished-reported show_nat m v t job accepted duplicate_suppressed h st = absurd (cc h)

finished-mapped :
    (f : JobState → JobState) (o : Option JobState)
    → is_some o ≡ true
    → ((st : JobState) → is_finished (f st) ≡ true)
    → holds is_finished (mapped f o) ≡ true
finished-mapped f none stored ends = absurd (cc stored)
finished-mapped f (some st) stored ends = ends st

at_job-same :
    (j : String) (f : Option JobState → Option JobState) (o : Option JobState)
    → at_job j j f o ≡ f o
at_job-same j f o = rw (==_refl j) refl

reported-IsFinished :
    (show_nat : ℕ → String) (machine_id : String) (verification : String × String)
    (now timeout_secs : ℕ) (config : RetryConfig) (job : SentJob) (accepted : Bool)
    (dispatch : PrintDispatch) (d : DispatchService)
    → reached accepted dispatch ≡ true
    → is_some (job_state job.job_id d.queue) ≡ true
    → IsFinished job.job_id
        (complete_job now config
          (reported show_nat machine_id verification timeout_secs job accepted dispatch)
          d).0.queue
unfolding completion_of
reported-IsFinished show_nat m v now t config job accepted dispatch d h stored =
    let c = reported show_nat m v t job accepted dispatch in
    let before = job_state job.job_id d.queue in
    ap (holds is_finished) (
      complete_job-state now job.job_id config c d
      ∙ at_job-same job.job_id (mapped (after_completion c)) before)
    ∙ finished-mapped (after_completion c) before stored
        (finished-reported show_nat m v t job accepted dispatch h)

-- Once the client has reported a print of a stored job that the printer may have, printed, with an
-- unknown end, or timed out after the printer accepted it, no sequence of connections, deliveries,
-- status messages, completions, retries and reaper rounds streams the job to a client again, as long
-- as no new job is stored under its id.
pub printed_never_resent :
    (trim : String → String) (parse_event : String → Option PrintJobEvent) (show_nat : ℕ → String)
    (machine_id : String) (verification : String × String) (now timeout_secs : ℕ)
    (config : RetryConfig) (job : SentJob) (accepted : Bool) (dispatch : PrintDispatch)
    (events : List (ℕ × Event)) (d : DispatchService)
    → reached accepted dispatch ≡ true
    → is_some (job_state job.job_id d.queue) ≡ true
    → stores_any job.job_id events ≡ false
    → All
        (λ p. is_job job.job_id p ≡ false)
        (streams trim parse_event config events
          (complete_job now config
            (reported show_nat machine_id verification timeout_secs job accepted dispatch)
            d).0)
printed_never_resent trim parse_event show_nat m v now t config job accepted dispatch events d h
      stored new =
    finished_never_streamed trim parse_event config job.job_id events _ new
      (reported-IsFinished show_nat m v now t config job accepted dispatch d h stored)
