-- ===== src/Server/Dispatch/Peers.antt =====
-- The peer address of every client's current job stream (`StreamPeers` of
-- crates/devbridge-server/src/dispatch.rs).
use devbridge.Common.{
  String, ◌≡◌, true, Option, none, some, List, ◌==◌, arith, ==_refl, if◌then◌else◌, string_eq,
}
use devbridge.Common.Table.{find, insert, update, find-insert, find-update, passes}
use devbridge.Server.Queue.{without}
use devbridge.Server.Queue.Routing.{find-without}

abbrev pub Peers : Type 0
Peers = List (String × (String × Option String))

unfoldable pub connected : String → String → Option String → Peers → Peers
connected machine_id connection_id peer peers =
    update machine_id (λ old. true) (λ old. (connection_id, peer))
      (insert machine_id (connection_id, peer) peers)

unfoldable pub disconnected : String → String → Peers → Peers
disconnected machine_id connection_id peers =
    if passes (λ live. live.0 == connection_id) (find machine_id peers)
    then without machine_id peers
    else peers

abbrev address : Option (String × Option String) → Option String
address none = none
address (some (live, peer)) = peer

unfoldable pub peer_of : String → Peers → Option String
peer_of machine_id peers = address (find machine_id peers)

-- A new stream sets its machine's address and no other; the end of a stream that a newer one of its
-- machine has replaced forgets nothing, and the end of the live one forgets its machine alone.
pub peer_of-connected-disconnected :
    (m k c d : String) (peer : Option String) (peers : Peers)
    → peer_of m (disconnected k d (connected k c peer peers))
      ≡ (if k == m then (if c == d then none else peer) else peer_of m peers)
unfolding peer_of disconnected connected
peer_of-connected-disconnected m k c d peer peers = ground (
  arith,
  find-without m k (update k (λ old. true) (λ old. (c, peer)) (insert k (c, peer) peers)),
  find-update m k (λ old. true) (λ old. (c, peer)) (insert k (c, peer) peers),
  find-update k k (λ old. true) (λ old. (c, peer)) (insert k (c, peer) peers),
  find-insert m k (c, peer) peers,
  find-insert k k (c, peer) peers,
  ==_refl k,
  string_eq.beq_iff k m,
)
