-- ===== src/Client/Report.antt =====
-- What the client tells the server of a print (print_backend.rs and the end of the job loop of
-- receiver.rs, crates/devbridge-client/src). The text of a number is an argument.
pub mod NeverResent
use Prim.Native.String.{◌++◌ as str_append}
use devbridge.Common.{ℕ, String, Bool, true, false, Option, none, some, if◌then◌else◌}
use devbridge.Server.Job.{JobState, completed, failed, unconfirmed}
use devbridge.Server.Dispatch.Messages.{JobCompletion}
use devbridge.Client.InFlight.{PrintError, PrintDispatch, timed_out, duplicate_suppressed}
use devbridge.Client.InFlight

unfoldable pub is_unconfirmed : Option PrintError → Bool
is_unconfirmed none = false
is_unconfirmed (some e) = e.unconfirmed

pub record PrintReport : Type 0 where
  pub success : Bool
  pub unconfirmed : Bool
  pub error_detail : String
  pub printer_status : String
  pub local_state : JobState

-- `PrintReport::of`.
unfoldable pub report_of : Option PrintError → PrintReport
unfolding is_unconfirmed
report_of none = record {
  success = true;
  unconfirmed = false;
  error_detail = "";
  printer_status = "delivered";
  local_state = completed;
}
report_of (some e) =
    let unknown = is_unconfirmed (some e) in
    record {
      success = false;
      unconfirmed = unknown;
      error_detail = e.detail;
      printer_status = if unknown then "unconfirmed" else "error";
      local_state = if unknown then unconfirmed else failed;
    }

unfoldable pub print_timeout_error : (ℕ → String) → ℕ → Bool → PrintError
print_timeout_error show_nat timeout_secs true = record {
  detail =
      str_append "printer accepted the job, completion not confirmed (print task timed out after "
        (str_append (show_nat timeout_secs) "s) — not resent");
  unconfirmed = true;
}
print_timeout_error show_nat timeout_secs false = record {
  detail =
      str_append "print task timed out after "
        (str_append (show_nat timeout_secs) "s — backend or spooler hung");
  unconfirmed = false;
}

-- The result of a dispatch. `printer_accepted` is what the emitter saw by then.
unfoldable pub print_result : (ℕ → String) → ℕ → Bool → PrintDispatch → Option PrintError
unfolding print_timeout_error
print_result show_nat timeout_secs printer_accepted (InFlight.completed result) = result
print_result show_nat timeout_secs printer_accepted timed_out =
    some (print_timeout_error show_nat timeout_secs printer_accepted)
print_result show_nat timeout_secs printer_accepted duplicate_suppressed = some (record {
  detail = "duplicate print suppressed — prior task for this job_id still in flight";
  unconfirmed = false;
})

-- The job as the server sent it, as far as the report needs it.
pub record SentJob : Type 0 where
  pub job_id : String
  pub copies : ℕ

-- The completion of a printed job, but for the two texts that the server does not read.
unfoldable pub completion_of :
    String → String × String → SentJob → Option PrintError → JobCompletion
unfolding report_of
completion_of machine_id verification job result =
    let report = report_of result in
    record {
      job_id = job.job_id;
      success = report.success;
      error_detail = report.error_detail;
      pages_printed = if report.success then job.copies else 0;
      verification_method = verification.0;
      verification_evidence = verification.1;
      client_id = machine_id;
      unconfirmed = report.unconfirmed;
    }

-- The completion of a job whose payload was not downloaded.
unfoldable pub download_failed : String → SentJob → String → JobCompletion
download_failed machine_id job detail = record {
  job_id = job.job_id;
  success = false;
  error_detail = detail;
  pages_printed = 0;
  verification_method = "";
  verification_evidence = "";
  client_id = machine_id;
  unconfirmed = false;
}
