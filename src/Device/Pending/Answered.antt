-- ===== src/Device/Pending/Answered.antt =====
-- What a round over the pending jobs does to the journal (device_jobs/mod.rs of
-- crates/devbridge-client/src).
use devbridge.Common.{
  ℕ, String, ◌≡◌, refl, Bool, true, false, ◌&&◌, ◌||◌, not, Option, none, List, [], ◌∷◌, ◌==◌,
  ==_refl, is_some, any, arith, inl, inr, Option-cases,
}
use devbridge.Common.Int.{ℤ, pos, int_eq, int_beq_iff}
use devbridge.Common.Result.{Result, ok, err}
use devbridge.Common.Table.{passes}
use devbridge.Device.Entry.{JournalEntry, is_final}
use devbridge.Device.Journal.Store.{Journal, get, is_lan_job}
use devbridge.Device.Journal.Operations.{reopen_ack}
use devbridge.Device.Journal.Rows.{get-update_device}
use devbridge.Device.Pending.{
  PendingJob, AckReply, Pass, add_id, not_journaled, ack_not_received, pending_each, pending_pass,
}

abbrev pub is_over : Option JournalEntry → Bool
is_over o = passes (λ e. is_final e.state) o

-- The final ack of the job is owed.
abbrev pub owes_final : Option JournalEntry → Bool
owes_final o = passes (λ e. is_final e.state && not e.acked) o

abbrev pub lists : ℤ → List PendingJob → Bool
lists k jobs = any (λ p. p.id == k) jobs

abbrev pub is_ok : Result Bool → Bool
is_ok (ok again) = true
is_ok (err e) = false

-- What reopening an ack keeps, and what it brings.
record Reopens (o o' : Option JournalEntry) : Type 0 where
  pub there : is_some o' ≡ is_some o
  pub over : is_over o' ≡ is_over o
  pub owing : owes_final o ≡ true → owes_final o' ≡ true

Reopens-reopen_ack :
    (now : ℕ) (j k : ℤ) (s : Journal) → Reopens (get j s) (get j (reopen_ack now k s).0)
unfolding reopen_ack
Reopens-reopen_ack now j k s = rw get-update_device (ground arith)

reopened :
    (now n : ℕ) (s : Journal)
    → is_over (get (pos n) s) ≡ true
    → owes_final (get (pos n) (reopen_ack now (pos n) s).0) ≡ true
unfolding reopen_ack is_lan_job
reopened now n s h = rw (get-update_device, ==_refl (pos n)) (ground (arith, h))

-- What a round says about job `k`.
record Answers (k : ℤ) (jobs : List PendingJob) (s : Journal) (pass : Pass) : Type 0 where
  pub unseen : any (λ i. i == k) pass.not_received ≡ true → is_some (get k s) ≡ false
  pub over : is_over (get k pass.journal) ≡ is_over (get k s)
  pub owing : owes_final (get k s) ≡ true → owes_final (get k pass.journal) ≡ true
  pub listed :
      is_ok pass.result ≡ true
      → lists k jobs ≡ true
      → is_over (get k s) ≡ true
      → owes_final (get k pass.journal) ≡ true

module _ (now : ℕ) (answer : PendingJob → AckReply) (n : ℕ) (p : PendingJob) (ps : List PendingJob)
    (later : Bool) (s : Journal) where
  journaled-Answers :
      Answers
        (pos n)
        ps
        (reopen_ack now p.id s).0
        (pending_each now answer ps later (reopen_ack now p.id s).0)
      → Answers (pos n) (p ∷ ps) s (pending_each now answer ps later (reopen_ack now p.id s).0)
  journaled-Answers a =
      let r = Reopens-reopen_ack now (pos n) p.id s in
      record {
        unseen = λ h. ground (arith, a.unseen h, r.there);
        over = ground (arith, a.over, r.over);
        owing = λ h. a.owing (r.owing h);
        listed = λ o l f. ground (
          arith,
          int_beq_iff p.id (pos n),
          reopened now n s f,
          a.owing,
          a.listed o,
          r.over,
          l,
          f,
        );
      }

  missing-Answers :
      (again : Bool)
      → get p.id s ≡ none
      → Answers (pos n) ps s (pending_each now answer ps (later || again) s)
      → Answers (pos n) (p ∷ ps) s (add_id p.id (pending_each now answer ps (later || again) s))
  missing-Answers again e a = record {
    unseen = λ h. ground (arith, int_beq_iff p.id (pos n), e, a.unseen, h);
    over = a.over;
    owing = a.owing;
    listed = λ o l f. ground (arith, int_beq_iff p.id (pos n), e, a.listed o, l, f);
  }

  stopped-Answers :
      (text : String)
      → get p.id s ≡ none
      → Answers
          (pos n)
          (p ∷ ps)
          s
          (record { journal = s; not_received = p.id ∷ []; result = err text })
  stopped-Answers text e = record {
    unseen = λ h. ground (arith, int_beq_iff p.id (pos n), e, h);
    over = refl;
    owing = λ h. h;
    listed = λ o l f. ground (arith, o);
  }

pending_each-Answers :
    (now : ℕ) (answer : PendingJob → AckReply) (n : ℕ) (jobs : List PendingJob) (later : Bool)
    (s : Journal)
    → Answers (pos n) jobs s (pending_each now answer jobs later s)
unfolding pending_each
pending_each-Answers now answer n [] later s = record {
  unseen = λ h. ground (arith, h);
  over = refl;
  owing = λ h. h;
  listed = λ o l f. ground (arith, l);
}
pending_each-Answers now answer n (p ∷ ps) later s = elim (Option-cases (get p.id s)) [
  | inl e ↦ rw e (by_reply (ack_not_received (answer p)) e (pending_each-Answers now answer n ps))
  | inr (known, e) ↦ rw e (
      journaled-Answers now answer n p ps later s
        (pending_each-Answers now answer n ps later (reopen_ack now p.id s).0))
]
  where
    by_reply :
        (r : Result Bool)
        → get p.id s ≡ none
        → ((later : Bool) (s : Journal) → Answers (pos n) ps s (pending_each now answer ps later s))
        → Answers (pos n) (p ∷ ps) s (not_journaled p.id r later (pending_each now answer ps) s)
    by_reply (ok again) e ih =
        missing-Answers now answer n p ps later s again e (ih (later || again) s)
    by_reply (err text) e ih = stopped-Answers now answer n p ps later s text e

-- A job that the journal has is not acked as not received by any round, and a round leaves it final
-- exactly if it was.
pub never_denied :
    (now : ℕ) (answer : PendingJob → AckReply) (jobs : List PendingJob) (s : Journal) (n : ℕ)
    → is_some (get (pos n) s) ≡ true
    → (any (λ i. i == pos n) (pending_pass now answer (ok jobs) s).not_received ≡ false)
      × (is_over (get (pos n) (pending_pass now answer (ok jobs) s).journal)
          ≡ is_over (get (pos n) s))
unfolding pending_pass
never_denied now answer jobs s n h =
    let a = pending_each-Answers now answer n jobs false s in (ground (arith, a.unseen, h), a.over)

-- After a round that succeeds, every listed job that is final in the journal owes Odoo its final ack.
pub owes_listed :
    (now : ℕ) (answer : PendingJob → AckReply) (jobs : List PendingJob) (s : Journal) (n : ℕ)
    → is_ok (pending_pass now answer (ok jobs) s).result ≡ true
    → lists (pos n) jobs ≡ true
    → is_over (get (pos n) s) ≡ true
    → owes_final (get (pos n) (pending_pass now answer (ok jobs) s).journal) ≡ true
unfolding pending_pass
owes_listed now answer jobs s n = (pending_each-Answers now answer n jobs false s).listed
