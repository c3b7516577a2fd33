-- ===== src/Server/Queue/Delivery.antt =====
-- Which jobs the queue hands to which client (crates/devbridge-server/src/queue.rs): the jobs held
-- for a client that connects, and the jobs of the default queue.
use devbridge.Common.{
  String, ◌≡◌, refl, ap, ◌∙◌, Bool, true, not, ◌&&◌, Option, none, some, List, [], ◌∷◌, ◌++◌, ◌==◌,
  arith, ==_refl, is_some, string_eq, any, any-sort_by, any-filter, any-cong, filter,
}
use devbridge.Common.Table.{
  find, insert, update, find-insert, find-update, passes, HasUniqueKeys, any-find,
}
use devbridge.Server.Storage.Jobs.{JobRow, Storage, row_to_job}
use devbridge.Server.Storage.Lists.{
  on_row, by_created, jobs_of, get_queued_jobs_for_client, get_pending_jobs, targets,
}
use devbridge.Server.Clients.{Registry}
use devbridge.Server.Queue

-- The job is among the ids.
abbrev pub contains : String → List String → Bool
contains j ids = any (λ i. i == j) ids

abbrev pub waiting : Option (List String) → List String
waiting none = []
waiting (some ids) = ids

-- What waits for the connection.
unfoldable pub mailbox : String → Queue.JobQueue → List String
mailbox c q = waiting (find c q.receivers)

contains-job_ids :
    (j : String) (rows : List (String × JobRow))
    → contains j (Queue.job_ids (jobs_of rows)) ≡ any (λ row. row.0 == j) rows
unfolding row_to_job
contains-job_ids j [] = refl
contains-job_ids j ((i, r) ∷ rows) = rw (contains-job_ids j rows) refl

contains-unpaired_ids :
    (j : String) (rows : List (String × JobRow))
    → contains j (Queue.unpaired_ids (jobs_of rows))
      ≡ any (λ row. not (is_some row.1.target_client_id) && row.0 == j) rows
unfolding row_to_job
contains-unpaired_ids j [] = refl
contains-unpaired_ids j ((i, r) ∷ rows) = ground (arith, contains-unpaired_ids j rows)

-- A queued job that is routed to the client.
abbrev pub is_held_for : String → JobRow → Bool
is_held_for client_id r = targets client_id r.target_client_id && r.state == "queued"

contains-queued :
    (j client_id : String) (s : Storage)
    → HasUniqueKeys s.jobs
    → contains j (Queue.job_ids (get_queued_jobs_for_client client_id s))
      ≡ passes (is_held_for client_id) (find j s.jobs)
unfolding get_queued_jobs_for_client
contains-queued j client_id s h =
    contains-job_ids j _
    ∙ any-sort_by (λ row. row.0 == j) by_created (filter (on_row (is_held_for client_id)) s.jobs)
    ∙ any-filter (λ row. row.0 == j) (on_row (is_held_for client_id)) s.jobs
    ∙ any-find j (is_held_for client_id) s.jobs h

abbrev appended : Option (List String) → List String → List String
appended none ids = []
appended (some w) ids = w ++ ids

mailbox-send_all :
    (m c : String) (ids : List String) (q : Queue.JobQueue)
    → find m q.client_channels ≡ some c
    → mailbox c (Queue.send_all m ids q) ≡ appended (find c q.receivers) ids
unfolding mailbox Queue.send_all
mailbox-send_all m c ids q e =
    ground (arith, e, find-update c c (λ w. true) (λ w. w ++ ids) q.receivers, ==_refl c)

-- Where the ids of the stored jobs are unique, a client that connects on a new connection finds waiting
-- there exactly the queued jobs that are routed to it.
pub reconnect_delivers_held :
    (j m c : String) (q : Queue.JobQueue)
    → HasUniqueKeys q.storage.jobs
    → find c q.receivers ≡ none
    → contains j (mailbox c (Queue.drain_pending_for_client m (Queue.register_client m c q)))
      ≡ passes (is_held_for m) (find j q.storage.jobs)
unfolding Queue.drain_pending_for_client Queue.register_client
reconnect_delivers_held j m c q h fresh =
    ap (contains j) (
      mailbox-send_all m c (Queue.job_ids (get_queued_jobs_for_client m q.storage)) _ channel
      ∙ rw box refl)
    ∙ contains-queued j m q.storage h
  where
    channel : find m (update m (λ old. true) (λ old. c) (insert m c q.client_channels)) ≡ some c
    channel = ground (
      arith,
      find-update m m (λ old. true) (λ old. c) (insert m c q.client_channels),
      find-insert m m c q.client_channels,
      ==_refl m,
    )

    box : find c (insert c [] q.receivers) ≡ some []
    box = ground (arith, fresh, ==_refl c, find-insert c c [] q.receivers)

abbrev pub is_unpaired : JobRow → Bool
is_unpaired r = not (is_some r.target_client_id)

-- Where the ids of the stored jobs are unique, the default queue of a new queue holds exactly the queued
-- jobs that no client is paired with.
pub new_holds_unpaired :
    (j : String) (s : Storage) (registry : Registry)
    → HasUniqueKeys s.jobs
    → contains j (Queue.new s registry).default_pending
      ≡ passes (λ r. is_unpaired r && r.state == "queued") (find j s.jobs)
unfolding Queue.new get_pending_jobs
new_holds_unpaired j s registry h =
    contains-unpaired_ids j _
    ∙ any-sort_by wanted by_created (filter (on_row (λ r. r.state == "queued")) s.jobs)
    ∙ any-filter wanted (on_row (λ r. r.state == "queued")) s.jobs
    ∙ any-cong _ (λ row. (is_unpaired row.1 && row.1.state == "queued") && row.0 == j) swapped
        s.jobs
    ∙ any-find j (λ r. is_unpaired r && r.state == "queued") s.jobs h
  where
    wanted : String × JobRow → Bool
    wanted row = is_unpaired row.1 && row.0 == j

    swapped :
        (row : String × JobRow)
        → (row.1.state == "queued" && (is_unpaired row.1 && row.0 == j))
          ≡ ((is_unpaired row.1 && row.1.state == "queued") && row.0 == j)
    swapped (i, r) = ground arith
