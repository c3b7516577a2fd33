-- ===== src/Client/Examples.antt =====
-- An IPP request and a broken response; prints of one job that overlap.
use devbridge.Common.{
  List, none, ◌≤◌, ◌==◌, nat_eq, if◌then◌else◌, max, true, some, [], ◌∷◌, ◌≡◌, refl, arith, is_some,
}
use devbridge.Common.Result.{ok, err}
use devbridge.Client.InFlight
use devbridge.Client.InFlight.{duplicate_suppressed}
use devbridge.Client.InFlight.OneTask.{Event, event, run, alive, idle, one_task}
use devbridge.Client.Ipp.{Bytes, ascii, print_job, build_print_job_request}
use devbridge.Client.Ipp.Utf8.{is_utf8, utf8_after}
use devbridge.Client.Ipp.Parse.{parse_response, parse_attributes, turn, read_u16, read_bytes}
use devbridge.Client.Ipp.Reads.{is_some-parse_response}
use devbridge.Client.Ipp.RoundTrip.{print_job_attributes, parse_response-build_print_job_request}

abbrev uri : Bytes
uri = ascii "ipp://10.0.0.7/ipp/print"

abbrev pdf : Bytes
pdf = ascii "application/pdf"

abbrev invoice : Bytes
invoice = ascii "Invoice"

-- A value of two bytes is announced, and one follows.
abbrev broken : Bytes
broken = 1 ∷ 1 ∷ 0 ∷ 0 ∷ 0 ∷ 0 ∷ 0 ∷ 9 ∷ 4 ∷ 33 ∷ 0 ∷ 1 ∷ 97 ∷ 0 ∷ 2 ∷ 7 ∷ []

broken_is_refused : parse_response broken ≡ some (err "IPP response truncated at value")
unfolding parse_response parse_attributes turn read_u16 read_bytes is_utf8 utf8_after
broken_is_refused = refl

is_some-parse_response_example : is_some (parse_response broken) ≡ true
is_some-parse_response_example = is_some-parse_response broken

parse_response-build_print_job_request_example :
    parse_response (build_print_job_request uri pdf invoice 7 3)
    ≡ some (
        ok (record {
          status_code = print_job;
          request_id = 7;
          attributes = print_job_attributes uri pdf invoice (max 3 1);
        }))
parse_response-build_print_job_request_example =
    parse_response-build_print_job_request uri pdf invoice 7 3 (omega arith) (omega arith)
      (omega arith) (omega arith)

abbrev retried : List Event
retried =
    Event.begin_print "a" ∷ Event.time_out "a" ∷ Event.begin_print "a" ∷ Event.begin_print "b" ∷ []

-- The second print of "a" was suppressed, since the first is still alive.
alive-retried : alive "a" (run retried idle).tasks ≡ 1
unfolding alive run event InFlight.begin_print InFlight.time_out InFlight.try_begin
    InFlight.contains
alive-retried = refl

one_task_example :
    (alive "a" (run retried idle).tasks ≤ 1)
    × ((InFlight.begin_print "a" (run retried idle)).1
        ≡ (if alive "a" (run retried idle).tasks == 0 then none else some duplicate_suppressed))
one_task_example = one_task retried "a"
