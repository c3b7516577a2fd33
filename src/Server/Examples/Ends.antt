-- ===== src/Server/Examples/Ends.antt =====
-- The dispatch service's theorems at concrete streams, completions and steps.
use devbridge.Common.{ℕ, ◌≡◌, refl, true, false, none, some, List, [], ◌∷◌, string_eq, All}
use devbridge.Server.Job.{is_finished, unconfirmed}
use devbridge.Server.Storage.States.{holds}
use devbridge.Server.Dispatch.Completion.{complete_job}
use devbridge.Server.Dispatch.Effects.{job_state}
use devbridge.Server.Dispatch.Ends.{complete_job-state}
use devbridge.Server.Dispatch.Retries.{retries_of, complete_job-delayed, backoff_factor}
use devbridge.Server.Storage.Jobs.{get_job, row_to_job}
use devbridge.Server.Dispatch.Trace.{Event, streams, is_job}
use devbridge.Server.Dispatch.Finished.{finished_never_streamed}
use devbridge.Server.Examples.{service, retries, ends, server_runs}

complete_job-state_example :
    job_state "done" (complete_job 30 retries (ends "done" false false) service).0.queue
    ≡ some unconfirmed
unfolding server_runs
complete_job-state_example = complete_job-state 30 "done" retries (ends "done" false false) service

abbrev afterwards : List (ℕ × Event)
afterwards =
    (31, Event.complete (ends "done" false false))
    ∷ (32, Event.requeue "done" "paper jam")
    ∷ (33, Event.reap)
    ∷ (34, Event.pass "till" "new")
    ∷ []

done-is_finished : holds is_finished (job_state "done" service.queue) ≡ true
unfolding server_runs
done-is_finished = refl

finished_never_streamed_example :
    All
      (λ p. is_job "done" p ≡ false)
      (streams (λ text. text) (λ text. none) retries afterwards service)
finished_never_streamed_example =
    finished_never_streamed (λ text. text) (λ text. none) retries "done" afterwards service refl
      done-is_finished

complete_job-delayed_example :
    (complete_job 30 retries (ends "busy" false false) service).0.delayed
    ≡ (record { delay_secs = 30; job_id = "busy"; error_detail = "paper jam" }) ∷ []
unfolding server_runs retries_of get_job row_to_job backoff_factor
complete_job-delayed_example = complete_job-delayed 30 retries (ends "busy" false false) service
