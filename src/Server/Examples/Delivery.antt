-- ===== src/Server/Examples/Delivery.antt =====
-- The queue's theorems at concrete clients and jobs.
use devbridge.Common.{◌≡◌, arith, refl, true, false, none, string_eq}
use devbridge.Common.Table.{find, passes}
use devbridge.Server.Queue
use devbridge.Server.Queue.Delivery.{
  is_unpaired, contains, mailbox, reconnect_delivers_held, new_holds_unpaired,
}
use devbridge.Server.Queue.Unpaired.{DefaultUnpaired, push-DefaultUnpaired, requeue-DefaultUnpaired}
use devbridge.Server.Examples.{shop, clients, queue, new_job, server_runs, shop-HasUniqueKeys}
use mathlib.Core.Path.{subst}

no_receiver : find "again" queue.receivers ≡ none
unfolding server_runs
no_receiver = refl

reconnect_delivers_held_example :
    contains "held" (
      mailbox "again"
        (Queue.drain_pending_for_client "till" (Queue.register_client "till" "again" queue)))
    ≡ true
unfolding server_runs
reconnect_delivers_held_example =
    reconnect_delivers_held "held" "till" "again" queue shop-HasUniqueKeys no_receiver

new_holds_unpaired_example : contains "held" (Queue.new shop clients).default_pending ≡ false
unfolding server_runs
new_holds_unpaired_example = new_holds_unpaired "held" shop clients shop-HasUniqueKeys

queue-DefaultUnpaired : DefaultUnpaired queue
unfolding server_runs
queue-DefaultUnpaired j h =
    subst (λ k. passes is_unpaired (find k queue.storage.jobs) ≡ true)
      ((string_eq.beq_iff "open" j).0 (ground (arith, h))) refl

new_job_is_new : find "new" shop.jobs ≡ none
unfolding server_runs
new_job_is_new = refl

push-DefaultUnpaired_example : DefaultUnpaired (Queue.push 20 new_job "/spool/new" queue)
push-DefaultUnpaired_example =
    push-DefaultUnpaired 20 new_job "/spool/new" queue new_job_is_new queue-DefaultUnpaired

requeue-DefaultUnpaired_example : DefaultUnpaired (Queue.requeue_job 20 "busy" "stale" queue).0
requeue-DefaultUnpaired_example =
    requeue-DefaultUnpaired 20 "busy" "stale" queue queue-DefaultUnpaired
