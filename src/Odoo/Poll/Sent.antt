-- ===== src/Odoo/Poll/Sent.antt =====
-- Which lines the ledger holds as handed to the spooler, after each operation on it
-- (odoo_source/ledger.rs, mod.rs of crates/devbridge-client/src).
use devbridge.Common.{
  ℕ, ◌+◌, String, ◌≡◌, refl, sym, ap, ◌∙◌, Bool, true, false, Option, none, some, List, [], ◌⊎◌,
  ◌∷◌, ◌==◌, arith, if◌then◌else◌, one_if, is_some, Option-cases, Bool-cases, inl, inr,
}
use devbridge.Common.Int.{ℤ, int_eq, pos}
use devbridge.Common.Result.{ok, err, ok-injective}
use devbridge.Common.Table.{
  find, insert, update, update_all, passes, after, find-insert, find-update, find-update_all,
}
use devbridge.Odoo.Ledger.{
  Line, Ledger, LineState, AckState, sending, done, owed, accepted, refused, ack_state, get,
  row_to_entry, mark_sending, sending_row, record_result, closed, verdict_row, mark_acked,
  reopen_ack, forget, is_done, recover_interrupted, mid_print, interrupted, interrupted_reason,
}
use devbridge.Odoo.Batch.{handle_known_line, decide_known}

abbrev pub is_sent : Line → Bool
is_sent r = r.sent

-- The bytes of the line were handed to the spooler, and the ledger knows it.
unfoldable pub sent : ℤ → Ledger → Bool
sent k s = passes is_sent (find k s)

-- How often each id stands in a list.
abbrev pub count : ℤ → List ℤ → ℕ
count k [] = 0
count k (i ∷ ids) = (if i == k then 1 else 0) + count k ids

sent-update :
    (j k : ℤ) (test : Line → Bool) (set : Line → Line) (s : Ledger)
    → ((r : Line) → (set r).sent ≡ r.sent)
    → sent j (update k test set s) ≡ sent j s
unfolding sent
sent-update j k test set s same = elim (Option-cases (find j s)) [
  | inl e ↦ ground (arith, e, find-update j k test set s)
  | inr (r, e) ↦ ground (arith, e, find-update j k test set s, same r)
]

find-forget : (j k : ℤ) (s : Ledger) → find j (forget k s) ≡ (if k == j then none else find j s)
unfolding find forget
find-forget j k [] = ground arith
find-forget j k ((i, r) ∷ s) =
    ground (arith, find-forget j k s, int_eq.beq_iff i k, int_eq.beq_iff i j, int_eq.beq_iff k j)

pub sent-record_result :
    (now : ℕ) (j : ℤ) (b k qty : ℤ) (e : Option String) (s : Ledger)
    → sent j (record_result now b k qty e s) ≡ sent j s
unfolding record_result
sent-record_result now j b k qty e s = elim (Bool-cases (is_some (find k s))) [
  | inl there ↦ rw there (sent-update j k (λ r. true) (closed now qty e) s (λ r. refl))
  | inr new ↦ rw new (
      unfold sent in
      ground (arith, new, find-insert j k (verdict_row now b qty e) s, int_eq.beq_iff k j))
]

pub sent-mark_acked :
    (now : ℕ) (j k : ℤ) (note : String) (s : Ledger) → sent j (mark_acked now k note s) ≡ sent j s
unfolding mark_acked
sent-mark_acked now j k note s = sent-update j k (λ r. true) _ s (λ r. refl)

sent-reopen_ack : (j k : ℤ) (s : Ledger) → sent j (reopen_ack k s) ≡ sent j s
unfolding reopen_ack
sent-reopen_ack j k s = sent-update j k is_done _ s (λ r. refl)

-- A line that was never sent may be forgotten.
sent-forget : (j k : ℤ) (s : Ledger) → sent k s ≡ false → sent j (forget k s) ≡ sent j s
unfolding sent
sent-forget j k s h = ground (arith, h, find-forget j k s, int_eq.beq_iff k j)

pub sent-recover_interrupted :
    (now : ℕ) (j : ℤ) (s : Ledger) → sent j (recover_interrupted now s).0 ≡ sent j s
unfolding sent recover_interrupted
sent-recover_interrupted now j s =
    find-sent (find j s) (find-update_all j mid_print (interrupted now) s)
  where
    find-sent :
        (o : Option Line)
        → find j (update_all mid_print (interrupted now) s) ≡ after mid_print (interrupted now) o
        → passes is_sent (find j (update_all mid_print (interrupted now) s)) ≡ passes is_sent o
    find-sent none e = rw e refl
    find-sent (some r) e = ground (arith, e)

sent-decide_known :
    (now : ℕ) (j k : ℤ) (r : Line) (s : Ledger)
    → find k s ≡ some r
    → sent j (decide_known now k (row_to_entry k r) s).0 ≡ sent j s
unfolding decide_known row_to_entry
sent-decide_known now j k r s e = sent_by r.state (ack_state r.acked r.ack_note) (Bool-cases r.sent)
  where
    never_sent : r.sent ≡ false → sent k s ≡ false
    never_sent h = unfold sent in rw (e, h) refl

    sent_by :
        (t : LineState) (a : AckState)
        → (r.sent ≡ true) ⊎ (r.sent ≡ false)
        → sent j (decide_known now k (record (row_to_entry k r) { state = t; ack = a }) s).0
          ≡ sent j s
    sent_by sending a b = sent-record_result now j r.batch_id k (pos 0) (some interrupted_reason) s
    sent_by done owed b = refl
    sent_by done accepted (inl h) = rw h (sent-reopen_ack j k s)
    sent_by done refused (inl h) = rw h (sent-reopen_ack j k s)
    sent_by done accepted (inr h) = rw h (sent-forget j k s (never_sent h))
    sent_by done refused (inr h) = rw h (sent-forget j k s (never_sent h))

pub sent-handle_known_line :
    (now : ℕ) (j k : ℤ) (s : Ledger) → sent j (handle_known_line now k s).0 ≡ sent j s
unfolding handle_known_line get
sent-handle_known_line now j k s = elim (Option-cases (find k s)) [
  | inl e ↦ rw e refl
  | inr (r, e) ↦ rw e (sent-decide_known now j k r s e)
]

otherwise {ℓ} :
    {A : Type ℓ} (x : A) {c : Bool} {y z : A} → c ≡ false → (if c then x else y) ≡ z → y ≡ z
otherwise x {y = y} e h = sym (ap (λ c. if c then x else y) e) ∙ h

sent-insert :
    (now : ℕ) (i k b : ℤ) (s : Ledger)
    → is_some (find i s) ≡ false
    → (if i == k then 1 else 0) + one_if (sent k s)
      ≡ one_if (sent k (insert i (sending_row now b) s))
sent-insert now i k b s e =
    unfold sent in ground (arith, e, find-insert k i (sending_row now b) s, int_eq.beq_iff i k)

-- The transaction succeeds only for lines that the ledger does not hold, each once; then it holds them
-- as sent.
pub sent-mark_sending :
    (now : ℕ) (k b : ℤ) (ids : List ℤ) (s s' : Ledger)
    → mark_sending now b ids s ≡ ok s'
    → count k ids + one_if (sent k s) ≡ one_if (sent k s')
unfolding mark_sending
sent-mark_sending now k b [] s s' h = ground (arith, ap (λ t. one_if (sent k t)) (ok-injective h))
sent-mark_sending now k b (i ∷ ids) s s' h = elim (Bool-cases (is_some (find i s))) [
  | inl e ↦ ground (arith, e, h)
  | inr e ↦ ground (
    arith,
    sent-insert now i k b s e,
    sent-mark_sending now k b ids (insert i (sending_row now b) s) s' (otherwise (err _) e h),
  )
]
