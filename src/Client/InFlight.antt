-- ===== src/Client/InFlight.antt =====
-- The guard against two prints of one job at a time (inflight.rs of crates/devbridge-client/src). A set is
-- the list of its elements, each once.
pub mod OneTask
use devbridge.Common.{
  ℕ, String, Bool, true, false, not, Option, none, some, List, [], ◌∷◌, ◌==◌, string_eq,
  if◌then◌else◌, any, filter,
}
use devbridge.Common.Result.{Result, ok, err}

-- The ids of the registry.
abbrev pub InFlightJobs : Type 0
InFlightJobs = List String

unfoldable pub contains : String → InFlightJobs → Bool
contains job_id jobs = any (λ i. i == job_id) jobs

-- The registry with the job in it, unless it is there.
unfoldable pub try_begin : String → InFlightJobs → Option InFlightJobs
unfolding contains
try_begin job_id jobs = if contains job_id jobs then none else some (job_id ∷ jobs)

-- The guard of the job is dropped.
unfoldable pub drop : String → InFlightJobs → InFlightJobs
drop job_id jobs = filter (λ i. not (i == job_id)) jobs

-- An error of a print: its whole chain of causes, and whether an `Unconfirmed` is among them.
pub record PrintError : Type 0 where
  pub detail : String
  pub unconfirmed : Bool

pub data PrintDispatch : Type 0 where
  completed : Option PrintError → PrintDispatch
  timed_out duplicate_suppressed : PrintDispatch

-- A print task, and whether its token was cancelled.
pub record PrintTask : Type 0 where
  pub job_id : String
  pub cancelled : Bool

-- The registry, and the tasks that hold a guard of it, abandoned ones too.
pub record Prints : Type 0 where
  pub jobs : InFlightJobs
  pub tasks : List PrintTask

abbrev pub is_task : String → PrintTask → Bool
is_task job_id task = task.job_id == job_id

abbrev pub started : String → Option InFlightJobs → Prints → Prints × Option PrintDispatch
started job_id none s = (s, some duplicate_suppressed)
started job_id (some jobs) s =
    (record { jobs = jobs; tasks = record { job_id = job_id; cancelled = false } ∷ s.tasks }, none)

-- The start of `run_print_task_with_timeout`: an answer at once, or a task that is waited for.
unfoldable pub begin_print : String → Prints → Prints × Option PrintDispatch
unfolding try_begin
begin_print job_id s = started job_id (try_begin job_id s.jobs) s

abbrev pub cancel : String → PrintTask → PrintTask
cancel job_id task = if is_task job_id task then record task { cancelled = true } else task

abbrev pub cancel_all : String → List PrintTask → List PrintTask
cancel_all job_id [] = []
cancel_all job_id (t ∷ ts) = cancel job_id t ∷ cancel_all job_id ts

-- The time ran out: the task is told to stop, and goes on until it does.
unfoldable pub time_out : String → Prints → Prints × PrintDispatch
time_out job_id s = (record s { tasks = cancel_all job_id s.tasks }, timed_out)

abbrev pub end_task : String → List PrintTask → List PrintTask
end_task job_id [] = []
end_task job_id (t ∷ ts) =
    let rest = end_task job_id ts in if is_task job_id t then ts else t ∷ rest

-- A task of the job returns, and its guard goes with it. `result` is what the backend said: its error, or none.
unfoldable pub task_ends : String → Option PrintError → Prints → Prints × PrintDispatch
unfolding drop
task_ends job_id result s =
    if any (is_task job_id) s.tasks
    then (record { jobs = drop job_id s.jobs; tasks = end_task job_id s.tasks }, completed result)
    else (s, completed result)
