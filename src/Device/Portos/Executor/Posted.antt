-- ===== src/Device/Portos/Executor/Posted.antt =====
-- A receipt is posted once for its job, and only after Portos said that it has none
-- (device_jobs/portos/mod.rs and tasks.rs over journal.rs of crates/devbridge-client/src).
use devbridge.Common.{
  ℕ, suc, ◌+◌, ◌≤◌, ◌≡◌, refl, sym, ◌∙◌, String, Bool, true, false, not, ◌&&◌, Option, none, some,
  List, [], ◌∷◌, ◌++◌, arith, Bool-cases, Option-cases, inl, inr, ◌==◌, nat_eq, is_some, All,
  All-append, if◌then◌else◌,
}
use devbridge.Common.Int.{ℤ, negsuc, int_eq, int_beq_iff}
use devbridge.Common.Json.{Json}
use devbridge.Device.Entry.{JournalEntry}
use devbridge.Device.Journal.Store.{Journal, get}
use devbridge.Device.Journal.Trace.{Op, apply, run, Keeps}
use devbridge.Device.Journal.Evolution.{Evolves, Evolves-refl, Evolves-trans, apply-Evolves}
use devbridge.Device.Journal.ExactlyOnce.{run-Evolves, spent, spent-rank, spent-le}
use devbridge.Device.Journal.Operations.{start_execution}
use devbridge.Device.Tasks.{Call, begin_job, begin_found, begin_entry, code_expired_local}
use devbridge.Device.Tasks.Once.{begin_job-calls, begin_job-rank}
use devbridge.Device.Portos.Reply.{
  Reply, unreachable, lost, answer, Texts, Lookup, found, not_found, classify_lookup, lookup_answer,
  is_problem, is_not_found, is_code, problem_code,
}
use devbridge.Device.Portos.Executor
use devbridge.Device.Portos.Executor.{Portos, Receipt, Registered}
use devbridge.Device.Portos.Executor.Documented.{
  SaysNone, no_content, no_such_receipt, not_found_code,
}
use devbridge.Device.Portos.Executor.Once.{problem_code_lem}

-- A request that left: for which job, and what Portos had answered about its key.
pub record Post : Type 0 where
  pub job_id : ℤ
  pub looked_up : Reply
  pub body : Json

-- What happens: an operation of the journal; what others do to Portos; or a worker that takes the job of
-- a receipt, with what the other tasks make of the journal before it asks Portos.
pub data Act (S : Type 0) : Type 0 where
  journal : Op → Act S
  others : (S → S) → Act S
  execute : ℕ → ℕ → ℕ → String → List Op → Receipt → Act S

-- Anything but pruning.
abbrev pub KeepsJobs : {S : Type 0} → Act S → Type 0
KeepsJobs (journal op) = Keeps op
KeepsJobs (others f) = Unit
KeepsJobs (execute max_wait queued_at now text meanwhile r) = All Keeps meanwhile

-- How many requests are of job `k`.
unfoldable pub posted_for : ℤ → List Post → ℕ
posted_for k [] = 0
posted_for k (q ∷ qs) = let rest = posted_for k qs in if q.job_id == k then suc rest else rest

abbrev post_of : Receipt → Reply → Option Json → List Post
post_of r reply none = []
post_of r reply (some body) = (record { job_id = r.job_id; looked_up = reply; body = body }) ∷ []

module _ {S : Type 0} (t : Texts) (portos : Portos S) where
  -- The registration of a receipt whose job a worker may execute.
  unfoldable pub run_worker : ℕ → List Op → Receipt → Journal × Call → S → (S × Journal) × List Post
  run_worker now meanwhile r (s, none) p = ((p, s), [])
  run_worker now meanwhile r (s, some job) p =
      let done = Executor.register t portos now r p (run meanwhile s) in
      ((done.portos, done.journal), post_of r (portos.receipt p r.code r.external_id) done.posted)

  unfoldable pub act : Act S → S → Journal → (S × Journal) × List Post
  unfolding run_worker
  act (journal op) p s = ((p, apply op s), [])
  act (others f) p s = ((f p, s), [])
  act (execute max_wait queued_at now text meanwhile r) p s =
      run_worker now meanwhile r (begin_job max_wait now r.job_id queued_at text s) p

  unfoldable pub posts : List (Act S) → S → Journal → List Post
  unfolding act
  posts [] p s = []
  posts (a ∷ acts) p s = let done = act a p s in done.1 ++ posts acts done.0.0 done.0.1

posted_for-append :
    (k : ℤ) (ps qs : List Post) → posted_for k (ps ++ qs) ≡ posted_for k ps + posted_for k qs
unfolding posted_for
posted_for-append k [] qs = omega arith
posted_for-append k (p ∷ ps) qs = ground (arith, posted_for-append k ps qs)

spent-Evolves : {o p : Option JournalEntry} → Evolves o p → spent o ≤ spent p
spent-Evolves {o} {p} h =
    ground (arith, h.forward, spent-rank o, spent-rank p, spent-le o, spent-le p)

begin_entry-Evolves :
    (now : ℕ) (j k : ℤ) (expired : Bool) (text : String) (e : JournalEntry) (s : Journal)
    → Evolves (get j s) (get j (begin_entry now k expired text e s).0)
unfolding begin_entry apply
begin_entry-Evolves now j k true text e s =
    apply-Evolves (Op.fail_unstarted now k code_expired_local text) j s tt
begin_entry-Evolves now j k false text e s = elim (Bool-cases (start_execution now k s).1) [
  | inl won ↦ rw won (apply-Evolves (Op.start_execution now k) j s tt)
  | inr n ↦ rw n (Evolves-refl (get j s))
]

begin_job-Evolves :
    (max_wait now : ℕ) (j k : ℤ) (queued_at : ℕ) (text : String) (s : Journal)
    → Evolves (get j s) (get j (begin_job max_wait now k queued_at text s).0)
unfolding begin_job begin_found
begin_job-Evolves max_wait now j k queued_at text s = elim (Option-cases (get k s)) [
  | inl p ↦ rw p (Evolves-refl (get j s))
  | inr (e, p) ↦ rw p (begin_entry-Evolves now j k _ text e s)
]

-- A worker that calls the device has spent the job's only execution.
begin_job-spends :
    (max_wait now : ℕ) (k : ℤ) (queued_at : ℕ) (text : String) (s : Journal)
    → is_some (begin_job max_wait now k queued_at text s).1 ≡ true
    → (spent (get k s) ≡ 0) × (spent (get k (begin_job max_wait now k queued_at text s).0) ≡ 1)
begin_job-spends max_wait now k queued_at text s h = elim (Option-cases (get k s)) [
  | inl p ↦ ground (arith, begin_job-calls max_wait now k queued_at text s, p, h)
  | inr (e, p) ↦ ground (
    arith,
    begin_job-calls max_wait now k queued_at text s,
    begin_job-rank max_wait now k queued_at text s,
    spent-rank (get k s),
    spent-rank (get k (begin_job max_wait now k queued_at text s).0),
    p,
    h,
  )
]

module _ {S : Type 0} (t : Texts) (portos : Portos S) where
  looked_up-Evolves :
      (now : ℕ) (j : ℤ) (r : Receipt) (l : Lookup) (p : S) (s : Journal)
      → Evolves (get j s) (get j (Executor.looked_up t portos now r l p s).journal)
  unfolding Executor.looked_up Executor.post_receipt apply
  looked_up-Evolves now j r (found v) p s = Evolves-refl (get j s)
  looked_up-Evolves now j r not_found p s =
      apply-Evolves (Op.mark_device_contact now r.job_id) j s tt
  looked_up-Evolves now j r (Lookup.unreachable e) p s = Evolves-refl (get j s)
  looked_up-Evolves now j r (Lookup.failed e) p s = Evolves-refl (get j s)

  posted_for-post_of :
      (k : ℤ) (r : Receipt) (reply : Reply) (o : Option Json)
      → posted_for k (post_of r reply o) ≤ (if r.job_id == k then 1 else 0)
  unfolding posted_for
  posted_for-post_of k r reply none = ground arith
  posted_for-post_of k r reply (some body) = ground arith

  run_worker-spends :
      (k : ℤ) (now : ℕ) (meanwhile : List Op) (r : Receipt) (b : Journal × Call) (p : S)
      → All Keeps meanwhile
      → (posted_for k (run_worker t portos now meanwhile r b p).1
          ≤ (if r.job_id == k && is_some b.1 then 1 else 0))
        × (spent (get k b.0) ≤ spent (get k (run_worker t portos now meanwhile r b p).0.1))
  unfolding run_worker Executor.register posted_for
  run_worker-spends k now meanwhile r (s, none) p h = (ground arith, omega arith)
  run_worker-spends k now meanwhile r (s, some job) p h =
      let done = Executor.register t portos now r p (run meanwhile s) in
      let kept = Evolves-trans (run-Evolves k meanwhile s h) (looked_up-Evolves now k r _ p _) in
      (
        ground (arith, posted_for-post_of k r (portos.receipt p r.code r.external_id) done.posted),
        spent-Evolves kept,
      )

  act-spends :
      (k : ℤ) (a : Act S) (p : S) (s : Journal)
      → KeepsJobs a
      → posted_for k (act t portos a p s).1 + spent (get k s)
        ≤ spent (get k (act t portos a p s).0.1)
  unfolding act posted_for
  act-spends k (journal op) p s h = omega (arith, spent-Evolves (apply-Evolves op k s h))
  act-spends k (others f) p s h = omega arith
  act-spends k (execute max_wait queued_at now text meanwhile r) p s h = ground (
    arith,
    run_worker-spends k now meanwhile r (begin_job max_wait now r.job_id queued_at text s) p h,
    begin_job-spends max_wait now r.job_id queued_at text s,
    spent-Evolves (begin_job-Evolves max_wait now k r.job_id queued_at text s),
    int_beq_iff r.job_id k,
  )

  posts-spend :
      (k : ℤ) (acts : List (Act S)) (p : S) (s : Journal)
      → All KeepsJobs acts
      → posted_for k (posts t portos acts p s) + spent (get k s) ≤ 1
  unfolding posts posted_for
  posts-spend k [] p s h = omega (arith, spent-le (get k s))
  posts-spend k (a ∷ acts) p s h =
      let (next, sent) = act t portos a p s in
      omega (
        arith,
        posted_for-append k sent (posts t portos acts next.0 next.1),
        act-spends k a p s h.0,
        posts-spend k acts next.0 next.1 h.1,
      )

says_none :
    (status : ℕ) (body : Json) (t : Texts)
    → lookup_answer t status body ≡ not_found
    → SaysNone (answer status body)
unfolding lookup_answer is_problem is_not_found
says_none status body t h = elim (Bool-cases (status == 204)) [
  | inl e ↦ no_content status body (ground (arith, e))
  | inr e ↦
      elim (Bool-cases (status == 404 && not (is_some (problem_code body)) && is_problem body)) [
        | inl f ↦
            no_such_receipt status body (ground (arith, f))
              (sym (problem_code_lem body) ∙ ground (arith, f)) (ground (arith, f))
        | inr f ↦
            not_found_code status body (ground (arith, e, f, h)) (ground (arith, e, f, h))
              (sym (problem_code_lem body) ∙ code (problem_code body) (ground (arith, e, f, h)))
      ]
]
  where
    code : (c : Option ℤ) → is_code (negsuc 103) c ≡ true → c ≡ some (negsuc 103)
    code none h = cc
    code (some c) h = ground (arith, h, int_beq_iff c (negsuc 103))

not_found-SaysNone :
    (t : Texts) (reply : Reply) → classify_lookup t reply ≡ not_found → SaysNone reply
unfolding classify_lookup
not_found-SaysNone t (unreachable e) h = cc
not_found-SaysNone t (lost e) h = cc
not_found-SaysNone t (answer status body) h = says_none status body t h

abbrev IsAsked : Post → Type 0
IsAsked q = SaysNone q.looked_up

module _ {S : Type 0} (t : Texts) (portos : Portos S) where
  looked_up-IsAsked :
      (now : ℕ) (r : Receipt) (reply : Reply) (l : Lookup) (p : S) (s : Journal)
      → classify_lookup t reply ≡ l
      → All IsAsked (post_of r reply (Executor.looked_up t portos now r l p s).posted)
  unfolding Executor.looked_up Executor.post_receipt
  looked_up-IsAsked now r reply (found v) p s e = tt
  looked_up-IsAsked now r reply not_found p s e = (not_found-SaysNone t reply e, tt)
  looked_up-IsAsked now r reply (Lookup.unreachable x) p s e = tt
  looked_up-IsAsked now r reply (Lookup.failed x) p s e = tt

  run_worker-IsAsked :
      (now : ℕ) (meanwhile : List Op) (r : Receipt) (b : Journal × Call) (p : S)
      → All IsAsked (run_worker t portos now meanwhile r b p).1
  unfolding run_worker Executor.register
  run_worker-IsAsked now meanwhile r (s, none) p = tt
  run_worker-IsAsked now meanwhile r (s, some job) p =
      looked_up-IsAsked now r (portos.receipt p r.code r.external_id) _ p (run meanwhile s) refl

  act-IsAsked : (a : Act S) (p : S) (s : Journal) → All IsAsked (act t portos a p s).1
  unfolding act
  act-IsAsked (journal op) p s = tt
  act-IsAsked (others f) p s = tt
  act-IsAsked (execute max_wait queued_at now text meanwhile r) p s =
      run_worker-IsAsked now meanwhile r (begin_job max_wait now r.job_id queued_at text s) p

  posts-IsAsked :
      (acts : List (Act S)) (p : S) (s : Journal) → All IsAsked (posts t portos acts p s)
  unfolding posts
  posts-IsAsked [] p s = tt
  posts-IsAsked (a ∷ acts) p s =
      All-append IsAsked (act t portos a p s).1 _ (act-IsAsked a p s) (posts-IsAsked acts _ _)

  -- Over any executions of receipt jobs, operations of the journal but pruning and changes that others
  -- make in Portos, in any order, and whatever Portos answers: at most one receipt is posted for a job,
  -- and each one only after Portos had answered the lookup of its key by an answer that documents that
  -- it has no such receipt.
  pub posted_once :
      (k : ℤ) (acts : List (Act S)) (p : S) (s : Journal)
      → All KeepsJobs acts
      → (posted_for k (posts t portos acts p s) ≤ 1)
        × All (λ q. SaysNone q.looked_up) (posts t portos acts p s)
  posted_once k acts p s h =
      (omega (arith, posts-spend t portos k acts p s h), posts-IsAsked acts p s)
