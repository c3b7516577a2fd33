-- ===== src/Device/Journal/Sweeps.antt =====
-- What the journal does over whole tables: the restart recovery, the pruning, the selections for
-- the ack sender and the reconciler, and the rows of LAN jobs (device_jobs/journal.rs,
-- journal_lan.rs of crates/devbridge-client/src).
use Prim.Native.Char.{code}
use Prim.Native.String.{◌++◌ as ◌⧺◌}
use devbridge.Common.{
  ℕ, ◌+◌, ◌-◌, ◌*◌, String, Bool, true, false, not, ◌&&◌, ◌||◌, Option, none, some, List, [], ◌∷◌,
  ◌++◌, ◌==◌, leb, ltb, if◌then◌else◌, sort_by, length, filter, take, nat_eq, string_eq,
}
use devbridge.Common.Int.{ℤ, neg, int_eq, int_leb}
use devbridge.Common.Table.{update_all, delete}
use devbridge.Device.Entry.{
  Timestamp, at, text, JobState, as_str, is_final, is_indeterminate, is_in_flight, is_owed,
  JournalEntry, AckRequest, owed_ack,
}
use devbridge.Device.Journal.Store.{Journal, LanJob, on_entry}

abbrev pub restarted : ℕ → JournalEntry → JournalEntry
restarted now e = record e {
  error_text = some ("devbridge restarted while the job was " ⧺ as_str e.state);
  state = JobState.indeterminate;
  updated_at = at now;
}

-- The keys and states of the rows that pass a test, in table order.
unfoldable pub select_states {ℓ} :
    {V : Type ℓ} → (V → JobState) → (V → Bool) → List (ℤ × V) → List (ℤ × JobState)
select_states state test [] = []
select_states state test ((k, v) ∷ rows) =
    let rest = select_states state test rows in if test v then (k, state v) ∷ rest else rest

abbrev pub by_key {ℓ} : {V : Type ℓ} → ℤ × V → ℤ × V → Bool
by_key (j, v) (k, w) = int_leb j k

abbrev lan_ids : List (ℤ × JobState) → List (ℤ × JobState)
lan_ids [] = []
lan_ids ((row, s) ∷ rows) = (neg row, s) ∷ lan_ids rows

abbrev pub in_flight : JournalEntry → Bool
in_flight e = is_in_flight e.state

-- Every job in flight becomes `indeterminate`; the ids and states before, by id, Odoo jobs first.
unfoldable pub recover_after_restart : ℕ → Journal → Journal × List (ℤ × JobState)
unfolding select_states
recover_after_restart now s = (
  record s {
    device_jobs = update_all in_flight (restarted now) s.device_jobs;
    lan_jobs =
        update_all (on_entry in_flight) (λ l. record l { entry = restarted now l.entry })
          s.lan_jobs;
  },
  sort_by by_key (select_states (λ e. e.state) in_flight s.device_jobs)
      ++ lan_ids (
          sort_by by_key (select_states (on_entry (λ e. e.state)) (on_entry in_flight) s.lan_jobs)),
)

-- The values of the rows that pass a test, by key.
abbrev pub values {ℓ} : {V : Type ℓ} → List (ℤ × V) → List V
values [] = []
values ((k, v) ∷ rows) = v ∷ values rows

abbrev pub row_passes {ℓ} : {V : Type ℓ} → (V → Bool) → ℤ × V → Bool
row_passes test (k, v) = test v

unfoldable pub select {ℓ} : {V : Type ℓ} → (V → Bool) → List (ℤ × V) → List V
select test rows = values (sort_by by_key (filter (row_passes test) rows))

abbrev pub entries_of : List LanJob → List JournalEntry
entries_of [] = []
entries_of (l ∷ ls) = l.entry ∷ entries_of ls

abbrev pub is_unknown : JournalEntry → Bool
is_unknown e = is_indeterminate e.state

unfoldable pub lan_indeterminate : Journal → List JournalEntry
unfolding select
lan_indeterminate s = entries_of (select (on_entry is_unknown) s.lan_jobs)

unfoldable pub indeterminate : Journal → List JournalEntry
unfolding select lan_indeterminate
indeterminate s = select is_unknown s.device_jobs ++ lan_indeterminate s

-- The `WHERE` of `owed_acks`.
abbrev pub owes_ack : JournalEntry → Bool
owes_ack e = (is_final e.state && not e.acked) || (is_indeterminate e.state && is_owed e.report)

abbrev pub some_acks : List JournalEntry → List AckRequest
some_acks [] = []
some_acks (e ∷ es) =
    let rest = some_acks es in elim (owed_ack e) [ none ↦ rest | some a ↦ a ∷ rest ]

-- `card_acks` are the acks of held card payments, which come first.
unfoldable pub owed_acks : List AckRequest → Journal → List AckRequest
unfolding select
owed_acks card_acks s = card_acks ++ some_acks (select owes_ack s.device_jobs)

abbrev pub report_owed : LanJob → Bool
report_owed l = is_final l.entry.state && not l.entry.acked

unfoldable pub owed_lan_reports : Journal → List LanJob
unfolding select
owed_lan_reports s = filter report_owed (select report_owed s.lan_jobs)

unfoldable pub unreported_lan_jobs : Journal → ℕ
unreported_lan_jobs s = length (filter (row_passes report_owed) s.lan_jobs)

abbrev codes : String → List ℕ
codes String.[] = []
codes (String.◌∷◌ c s) = code c ∷ codes s

abbrev lower : ℕ → ℕ
lower c = if leb 65 c && leb c 90 then c + 32 else c

abbrev same_codes : List ℕ → List ℕ → Bool
same_codes [] [] = true
same_codes (a ∷ as') (b ∷ bs) = lower a == lower b && same_codes as' bs
same_codes _ _ = false

-- `note LIKE 'refused:%'`; LIKE ignores the case of ASCII letters.
abbrev is_refusal : String → Bool
is_refusal note = same_codes (take 8 (codes note)) (codes "refused:")

abbrev refused_note : Option String → Bool
refused_note none = false
refused_note (some note) = is_refusal note

abbrev prune_after_days : ℕ
prune_after_days = 400

-- `updated_at < cutoff`; every row's `updated_at` is a moment that the journal wrote.
abbrev is_older : ℕ → Timestamp → Bool
is_older cutoff (at t) = ltb t cutoff
is_older cutoff (text s) = false

unfoldable pub is_prunable : ℕ → JournalEntry → Bool
is_prunable now e =
    e.acked
    && is_final e.state
    && is_older (now - prune_after_days * 86400) e.updated_at
    && not (refused_note e.ack_note)

unfoldable pub prune : ℕ → Journal → Journal × ℕ
unfolding is_prunable
prune now s = (
  record s {
    device_jobs = delete (is_prunable now) s.device_jobs;
    lan_jobs = delete (on_entry (is_prunable now)) s.lan_jobs;
  },
  length (filter (row_passes (is_prunable now)) s.device_jobs)
      + length (filter (row_passes (on_entry (is_prunable now))) s.lan_jobs),
)
