-- ===== src/Client/InFlight/OneTask.antt =====
-- At most one print task of a job is alive (inflight.rs of crates/devbridge-client/src).
use devbridge.Common.{
  ℕ, ◌+◌, ◌≤◌, ◌≡◌, refl, String, Bool, true, false, not, ◌&&◌, Option, none, some, List, [], ◌∷◌,
  ◌==◌, string_eq, nat_eq, arith, if◌then◌else◌, one_if, any,
}
use devbridge.Client.InFlight
use devbridge.Client.InFlight.{
  InFlightJobs, PrintError, Prints, PrintTask, PrintDispatch, completed, duplicate_suppressed,
  contains, try_begin, drop, is_task, cancel, cancel_all, end_task, started,
}

pub data Event : Type 0 where
  begin_print : String → Event
  time_out : String → Event
  task_ends : String → Option PrintError → Event

unfoldable pub event : Event → Prints → Prints
event (begin_print job_id) s = (InFlight.begin_print job_id s).0
event (time_out job_id) s = (InFlight.time_out job_id s).0
event (task_ends job_id result) s = (InFlight.task_ends job_id result s).0

unfoldable pub run : List Event → Prints → Prints
unfolding event
run [] s = s
run (e ∷ es) s = run es (event e s)

-- How many tasks of the job are alive.
unfoldable pub alive : String → List PrintTask → ℕ
alive k [] = 0
alive k (t ∷ ts) = one_if (is_task k t) + alive k ts

-- The registry has the job exactly while a task of it is alive, and there is one at most.
abbrev pub IsGuarded : String → Prints → Type 0
IsGuarded k s = alive k s.tasks ≡ one_if (contains k s.jobs)

alive-cancel_all : (k j : String) (ts : List PrintTask) → alive k (cancel_all j ts) ≡ alive k ts
unfolding alive
alive-cancel_all k j [] = refl
alive-cancel_all k j (t ∷ ts) = ground (arith, alive-cancel_all k j ts)

alive-end_task :
    (k j : String) (ts : List PrintTask)
    → alive k (end_task j ts) + one_if (any (is_task j) ts && j == k) ≡ alive k ts
unfolding alive
alive-end_task k j [] = ground arith
alive-end_task k j (t ∷ ts) = ground (
  arith,
  alive-end_task k j ts,
  string_eq.beq_iff t.job_id j,
  string_eq.beq_iff t.job_id k,
  string_eq.beq_iff j k,
)

contains-drop :
    (k j : String) (jobs : InFlightJobs)
    → contains k (drop j jobs) ≡ (contains k jobs && not (j == k))
unfolding contains drop
contains-drop k j [] = refl
contains-drop k j (i ∷ jobs) = ground (
  arith,
  contains-drop k j jobs,
  string_eq.beq_iff i j,
  string_eq.beq_iff i k,
  string_eq.beq_iff j k,
)

any-alive : (k : String) (ts : List PrintTask) → any (is_task k) ts ≡ true → 1 ≤ alive k ts
unfolding alive
any-alive k [] h = ground (arith, h)
any-alive k (t ∷ ts) h = ground (arith, any-alive k ts, h)

begun :
    (j k : String) (s : Prints) (b : Bool)
    → contains j s.jobs ≡ b
    → IsGuarded k s
    → IsGuarded k (started j (if b then none else some (j ∷ s.jobs)) s).0
unfolding alive contains
begun j k s true e h = h
begun j k s false e h = ground (arith, string_eq.beq_iff j k, e, h)

event-IsGuarded : (e : Event) (k : String) (s : Prints) → IsGuarded k s → IsGuarded k (event e s)
unfolding event InFlight.begin_print InFlight.time_out InFlight.task_ends try_begin contains
event-IsGuarded (begin_print j) k s h = begun j k s (contains j s.jobs) refl h
event-IsGuarded (time_out j) k s h = ground (arith, alive-cancel_all k j s.tasks, h)
event-IsGuarded (task_ends j result) k s h = ground (
  arith,
  alive-end_task k j s.tasks,
  contains-drop k j s.jobs,
  any-alive k s.tasks,
  string_eq.beq_iff j k,
  h,
)

run-IsGuarded : (es : List Event) (k : String) (s : Prints) → IsGuarded k s → IsGuarded k (run es s)
unfolding run
run-IsGuarded [] k s h = h
run-IsGuarded (e ∷ es) k s h = run-IsGuarded es k (event e s) (event-IsGuarded e k s h)

abbrev pub idle : Prints
idle = record { jobs = []; tasks = [] }

-- Over any starts, timeouts and ends of prints, in any order, at most one task of a job is alive, abandoned
-- ones counted, and a print of it is suppressed exactly while there is one.
pub one_task :
    (es : List Event) (k : String)
    → (alive k (run es idle).tasks ≤ 1)
      × ((InFlight.begin_print k (run es idle)).1
          ≡ (if alive k (run es idle).tasks == 0 then none else some duplicate_suppressed))
unfolding InFlight.begin_print try_begin contains alive
one_task es k =
    let guarded = run-IsGuarded es k idle refl in
    answered (run es idle) (contains k (run es idle).jobs) refl guarded
  where
    answered :
        (s : Prints) (b : Bool)
        → contains k s.jobs ≡ b
        → IsGuarded k s
        → (alive k s.tasks ≤ 1)
          × ((started k (if b then none else some (k ∷ s.jobs)) s).1
              ≡ (if alive k s.tasks == 0 then none else some duplicate_suppressed))
    answered s true e h = ground (arith, e, h)
    answered s false e h = ground (arith, e, h)
