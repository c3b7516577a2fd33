-- ===== src/Server/Queue/Routing.antt =====
-- Where the queue sends a job: to the channel of a client, or to the default queue
-- (crates/devbridge-server/src/queue.rs).
use devbridge.Common.{
  String, ◌≡◌, true, not, ◌&&◌, none, List, [], ◌∷◌, ◌==◌, arith, ==_refl, if◌then◌else◌, string_eq,
  Option-cases, inl, inr,
}
use devbridge.Common.Table.{find, insert, find-insert, find-update}
use devbridge.Server.Queue

pub find-without :
    (j k : String) {V : Type 0} (rows : List (String × V))
    → find j (Queue.without k rows) ≡ (if k == j then none else find j rows)
unfolding find
find-without j k [] = ground arith
find-without j k ((i, v) ∷ rows) = ground (
  arith,
  find-without j k rows,
  string_eq.beq_iff i k,
  string_eq.beq_iff i j,
  string_eq.beq_iff k j,
)

-- Only the connection that is unregistered, and only where it is the machine's latest, ends; every
-- other connection of any machine stays as it was.
pub is_active-unregister :
    (m c k d : String) (q : Queue.JobQueue)
    → Queue.is_active_connection m c (Queue.unregister_client k d q)
      ≡ (Queue.is_active_connection m c q && not (k == m && d == c))
unfolding Queue.is_active_connection Queue.unregister_client
is_active-unregister m c k d q = elim (Option-cases (find k q.client_channels)) [
  | inl e ↦ ground (arith, e, string_eq.beq_iff k m, string_eq.beq_iff d c)
  | inr (x, e) ↦ ground (
    arith,
    find-without m k q.client_channels,
    e,
    string_eq.beq_iff k m,
    string_eq.beq_iff d c,
    string_eq.beq_iff x d,
  )
]

-- The connection registered last is the active one of its machine.
pub is_active-register :
    (m c k d : String) (q : Queue.JobQueue)
    → Queue.is_active_connection m c (Queue.register_client k d q)
      ≡ (if k == m then d == c else Queue.is_active_connection m c q)
unfolding Queue.is_active_connection Queue.register_client
is_active-register m c k d q = ground (
  arith,
  find-update m k (λ c. true) (λ c. d) (insert k d q.client_channels),
  find-insert m k d q.client_channels,
  string_eq.beq_iff k m,
  ==_refl k,
)
