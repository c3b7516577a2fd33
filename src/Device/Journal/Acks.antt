-- ===== src/Device/Journal/Acks.antt =====
-- What the journal owes Odoo (device_jobs/journal.rs, journal_lan.rs of
-- crates/devbridge-client/src): the acks of Odoo's jobs and the reports of LAN jobs.
use devbridge.Common.{
  ℕ, suc, ◌+◌, String, ◌≡◌, refl, ◌∙◌, ap, Bool, true, false, Option, none, some, List, [], ◌∷◌,
  arith, ==_refl, if◌then◌else◌, length, filter, insert_by, sort_by, is_some, length-append,
  length-sort_by,
}
use devbridge.Common.Int.{ℤ, pos, negsuc, int_eq}
use devbridge.Device.Entry.{
  JournalEntry, Report, sent, is_final, is_open, Outcome, AckRequest, owed_ack,
}
use devbridge.Device.Journal.Store.{Journal, get, is_lan_job}
use devbridge.Device.Journal.Operations.{record_outcome, mark_acked, reopen_ack}
use devbridge.Device.Journal.Sweeps.{
  select, owes_ack, some_acks, owed_acks, report_owed, owed_lan_reports, unreported_lan_jobs,
  by_key, row_passes, values,
}
use devbridge.Device.Journal.Rows.{get-update_row, get-update_device}

abbrev pub owed : Option JournalEntry → Option AckRequest
owed none = none
owed (some e) = owed_ack e

-- The ack that tells Odoo an outcome.
abbrev pub ack_for : ℤ → Outcome → AckRequest
ack_for i (Outcome.done r) = AckRequest.done i r
ack_for i (Outcome.failed code text) = AckRequest.failed i code text
ack_for i (Outcome.indeterminate reason) = AckRequest.indeterminate i reason

abbrev pub is_told : Outcome → Report → Bool
is_told (Outcome.indeterminate reason) sent = true
is_told _ _ = false

-- An outcome recorded for an open job of Odoo's is the ack that its row then owes; only an unknown
-- outcome that Odoo was told before is not owed again.
pub owed-record_outcome :
    (now : ℕ) (k : ℤ) (o : Outcome) (s : Journal) {e : JournalEntry}
    → is_lan_job k ≡ false
    → get k s ≡ some e
    → is_open e.state ≡ true
    → owed (get k (record_outcome now k o s).0)
      ≡ (if is_told o e.report then none else some (ack_for e.job.id o))
unfolding record_outcome owed_ack is_lan_job
owed-record_outcome now (pos k) o s {e} h p q =
    rw (get-update_row, ==_refl (pos k), p) (ground arith)
owed-record_outcome now (negsuc k) o s h p q = cc

-- Odoo's answer to a final ack settles it, and an ack that is reopened is owed again as it was.
pub owed-reopen_ack :
    (now later : ℕ) (k : ℤ) (note : String) (s : Journal) {e : JournalEntry}
    → is_lan_job k ≡ false
    → get k s ≡ some e
    → is_final e.state ≡ true
    → e.acked ≡ false
    → (owed (get k (mark_acked now k note s).0) ≡ none)
      × (owed (get k (reopen_ack later k (mark_acked now k note s).0).0) ≡ owed_ack e)
unfolding mark_acked reopen_ack owed_ack
owed-reopen_ack now later k note s {e} h p f a = (
  rw (get-update_device, ==_refl k, h, p) (ground arith),
  rw (get-update_device, get-update_device, ==_refl k, h, p) (ground arith),
)

-- The `WHERE` of the selection and the code that builds an ack agree on every row.
pub owes_ack_iff : (e : JournalEntry) → is_some (owed_ack e) ≡ owes_ack e
unfolding owed_ack
owes_ack_iff e = ground arith

length-values {ℓ} : {V : Type ℓ} (rows : List (ℤ × V)) → length (values rows) ≡ length rows
length-values [] = refl
length-values ((k, v) ∷ rows) = ap suc (length-values rows)

length-select {ℓ} :
    {V : Type ℓ} (test : V → Bool) (rows : List (ℤ × V))
    → length (select test rows) ≡ length (filter (row_passes test) rows)
unfolding select
length-select test rows =
    length-values (sort_by by_key (filter (row_passes test) rows))
    ∙ length-sort_by by_key (filter (row_passes test) rows)

-- Every row of a list passes a test.
abbrev Passing {ℓ} : {V : Type ℓ} → (V → Bool) → List V → Type 0
Passing test [] = Unit
Passing test (v ∷ vs) = (test v ≡ true) × Passing test vs

Passing-insert_by {ℓ} :
    {A : Type ℓ} (test : A → Bool) (le : A → A → Bool) (a : A) (xs : List A)
    → test a ≡ true
    → Passing test xs
    → Passing test (insert_by le a xs)
Passing-insert_by test le a [] p h = (p, tt)
Passing-insert_by test le a (x ∷ xs) p h = ground (arith, Passing-insert_by test le a xs p h.1)

Passing-sort_by {ℓ} :
    {A : Type ℓ} (test : A → Bool) (le : A → A → Bool) (xs : List A)
    → Passing test xs
    → Passing test (sort_by le xs)
Passing-sort_by test le [] h = h
Passing-sort_by test le (x ∷ xs) h =
    Passing-insert_by test le x (sort_by le xs) h.0 (Passing-sort_by test le xs h.1)

Passing-filter {ℓ} : {A : Type ℓ} (test : A → Bool) (xs : List A) → Passing test (filter test xs)
Passing-filter test [] = tt
Passing-filter test (x ∷ xs) = ground (arith, Passing-filter test xs)

Passing-values {ℓ} :
    {V : Type ℓ} (test : V → Bool) (rows : List (ℤ × V))
    → Passing (row_passes test) rows
    → Passing test (values rows)
Passing-values test [] h = h
Passing-values test ((k, v) ∷ rows) h = (h.0, Passing-values test rows h.1)

Passing-select {ℓ} :
    {V : Type ℓ} (test : V → Bool) (rows : List (ℤ × V)) → Passing test (select test rows)
unfolding select
Passing-select test rows =
    Passing-values test _
      (Passing-sort_by (row_passes test) by_key _ (Passing-filter (row_passes test) rows))

filter-Passing {ℓ} :
    {A : Type ℓ} (test : A → Bool) (xs : List A) → Passing test xs → filter test xs ≡ xs
filter-Passing test [] h = refl
filter-Passing test (x ∷ xs) h = rw h.0 (ap (◌∷◌ x) (filter-Passing test xs h.1))

length-some_acks :
    (es : List JournalEntry) → Passing owes_ack es → length (some_acks es) ≡ length es
length-some_acks [] h = refl
length-some_acks (e ∷ es) h = ground (arith, owes_ack_iff e, length-some_acks es h.1)

-- Every row that owes Odoo an ack, and no other, contributes exactly one ack to what is sent.
pub length-owed_acks :
    (card_acks : List AckRequest) (s : Journal)
    → length (owed_acks card_acks s)
      ≡ length card_acks + length (filter (row_passes owes_ack) s.device_jobs)
unfolding owed_acks
length-owed_acks card_acks s =
    length-append card_acks (some_acks (select owes_ack s.device_jobs))
    ∙ ap (λ (n : ℕ). length card_acks + n)
        (length-some_acks (select owes_ack s.device_jobs) (Passing-select owes_ack s.device_jobs)
          ∙ length-select owes_ack s.device_jobs)

-- The reports sent are as many as the count of unreported LAN jobs: the second test on each selected
-- row drops none.
pub length-owed_lan_reports : (s : Journal) → length (owed_lan_reports s) ≡ unreported_lan_jobs s
unfolding owed_lan_reports unreported_lan_jobs
length-owed_lan_reports s =
    ap length (filter-Passing report_owed _ (Passing-select report_owed s.lan_jobs))
    ∙ length-select report_owed s.lan_jobs
