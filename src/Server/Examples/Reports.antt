-- ===== src/Server/Examples/Reports.antt =====
-- A print that timed out after the printer had accepted it, reported to the example server.
use devbridge.Common.{ℕ, none, List, [], ◌∷◌, ◌≡◌, refl, true, false, All}
use devbridge.Server.Dispatch.Completion.{complete_job}
use devbridge.Server.Dispatch.Trace.{Event, streams, is_job}
use devbridge.Client.InFlight.{timed_out}
use devbridge.Client.Report.{SentJob}
use devbridge.Client.Report.NeverResent.{reported, printed_never_resent}
use devbridge.Server.Examples.{service, retries, ends, server_runs}

abbrev busy_job : SentJob
busy_job = record { job_id = "busy"; copies = 2 }

abbrev reconnects : List (ℕ × Event)
reconnects =
    (31, Event.requeue "busy" "paper jam")
    ∷ (32, Event.complete (ends "busy" false false))
    ∷ (33, Event.reap)
    ∷ (34, Event.pass "till" "new")
    ∷ []

printed_never_resent_example :
    All
      (λ p. is_job "busy" p ≡ false)
      (streams
        (λ text. text)
        (λ text. none)
        retries
        reconnects
        (complete_job 30 retries
          (reported (λ n. "120") "till" ("", "") 120 busy_job true timed_out)
          service).0)
unfolding server_runs
printed_never_resent_example =
    printed_never_resent (λ text. text) (λ text. none) (λ n. "120") "till" ("", "") 30 120 retries
      busy_job true timed_out reconnects service refl refl refl
