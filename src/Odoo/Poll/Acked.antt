-- ===== src/Odoo/Poll/Acked.antt =====
-- The acks of the source reach an end: once Odoo answers them, none stays owed (flush_acks of
-- odoo_source/mod.rs in crates/devbridge-client/src).
use devbridge.Common.{
  ℕ, String, ◌≡◌, refl, ap, ◌∙◌, Bool, true, false, not, ◌&&◌, ◌||◌, List, [], ◌∷◌, ◌==◌, arith,
  inl, inr, Option-cases, if◌then◌else◌, any, any-sort_by, any-filter, filter, sort_by,
}
use devbridge.Common.Int.{ℤ, pos, int_eq}
use devbridge.Common.Result.{Result, ok}
use devbridge.Common.Table.{find, find-update, passes, any-find, HasUniqueKeys}
use devbridge.Odoo.Ledger.{
  Ledger, LedgerEntry, owes, on_row, entries, by_batch, pending_acks, mark_acked, row_to_entry,
}
use devbridge.Odoo.Poll.{
  AckReply, accepted, business, transport, other, flush_reply, flush_each, flush_acks,
}

-- Odoo's last word on an ack: it took it, or refused it.
abbrev pub is_answer : AckReply → Bool
is_answer (accepted duplicate) = true
is_answer (business text) = true
is_answer _ = false

-- Whether the ledger owes Odoo the ack of line `k`.
abbrev pub is_owed : ℤ → Ledger → Bool
is_owed k s = passes owes (find k s)

abbrev pub is_of : ℤ → LedgerEntry → Bool
is_of k e = e.line_id == k

is_owed-mark_acked :
    (now : ℕ) (k i : ℤ) (note : String) (s : Ledger)
    → is_owed k (mark_acked now i note s) ≡ (if i == k then false else is_owed k s)
unfolding mark_acked
is_owed-mark_acked now k i note s = elim (Option-cases (find k s)) [
  | inl e ↦ rw (find-update, e) (ground arith)
  | inr (r, e) ↦ rw (find-update, e) (ground arith)
]

-- A flush over acks that are all answered settles the lines it goes over, and no other.
is_owed-flush_each :
    (now : ℕ) (k : ℤ) (answer : LedgerEntry → AckReply)
    → ((e : LedgerEntry) → is_answer (answer e) ≡ true)
    → (es : List LedgerEntry) (owed : ℕ) (s : Ledger)
    → ((flush_each now answer es owed s).1 ≡ ok owed)
      × (is_owed k (flush_each now answer es owed s).0 ≡ (is_owed k s && not (any (is_of k) es)))
unfolding flush_each
is_owed-flush_each now k answer final [] owed s = (refl, ground arith)
is_owed-flush_each now k answer final (e ∷ es) owed s =
    by_reply (answer e) (final e) (is_owed-flush_each now k answer final es)
  where
    Settles : Ledger × Result ℕ → List LedgerEntry → Ledger → ℕ → Type 0
    Settles x es s owed =
        (x.1 ≡ ok owed) × (is_owed k x.0 ≡ (is_owed k s && not (any (is_of k) es)))

    acked :
        (note : String)
        → ((owed : ℕ) (s : Ledger) → Settles (flush_each now answer es owed s) es s owed)
        → Settles (flush_each now answer es owed (mark_acked now e.line_id note s)) (e ∷ es) s owed
    acked note ih = (
      (ih owed (mark_acked now e.line_id note s)).0,
      ground (
        arith,
        (ih owed (mark_acked now e.line_id note s)).1,
        is_owed-mark_acked now k e.line_id note s,
      ),
    )

    by_reply :
        (a : AckReply)
        → is_answer a ≡ true
        → ((owed : ℕ) (s : Ledger) → Settles (flush_each now answer es owed s) es s owed)
        → Settles (flush_reply now (flush_each now answer es) e a owed s) (e ∷ es) s owed
    by_reply (accepted duplicate) h ih = acked _ ih
    by_reply (business text) h ih = acked _ ih
    by_reply (transport text) h ih = ground (arith, h)
    by_reply (other text) h ih = ground (arith, h)

any-entries : (k : ℤ) (s : Ledger) → any (is_of k) (entries s) ≡ any (λ row. row.0 == k) s
unfolding row_to_entry
any-entries k [] = refl
any-entries k ((i, r) ∷ s) = ap (λ b. (i == k) || b) (any-entries k s)

-- The acks that are sent are those of the lines that owe one.
any-pending_acks :
    (k : ℤ) (s : Ledger) → HasUniqueKeys s → any (is_of k) (pending_acks s) ≡ is_owed k s
unfolding pending_acks
any-pending_acks k s u =
    any-entries k (sort_by by_batch (filter (on_row owes) s))
    ∙ any-sort_by (λ row. row.0 == k) by_batch (filter (on_row owes) s)
    ∙ any-filter (λ row. row.0 == k) (on_row owes) s
    ∙ any-find k owes s u

-- A flush in which Odoo answers every ack, as accepted or as refused, succeeds, counts none as still
-- owed, and leaves none owed. The lines of the ledger have different ids.
pub flush_acks_settles :
    (now : ℕ) (answer : LedgerEntry → AckReply) (s : Ledger)
    → HasUniqueKeys s
    → ((e : LedgerEntry) → is_answer (answer e) ≡ true)
    → ((flush_acks now answer s).1 ≡ ok 0)
      × ((k : ℤ) → is_owed k (flush_acks now answer s).0 ≡ false)
unfolding flush_acks
flush_acks_settles now answer s u final = (
  (is_owed-flush_each now (pos 0) answer final (pending_acks s) 0 s).0,
  λ k. ground (
    arith,
    (is_owed-flush_each now k answer final (pending_acks s) 0 s).1,
    any-pending_acks k s u,
  ),
)
