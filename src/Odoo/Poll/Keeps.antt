-- ===== src/Odoo/Poll/Keeps.antt =====
-- What a poll does before and after the print leaves alone which lines the ledger holds as sent
-- (odoo_source/mod.rs of crates/devbridge-client/src).
use devbridge.Common.{
  ℕ, nat_eq, ◌+◌, String, ◌≡◌, refl, ◌∙◌, Bool, true, false, Option, none, some, List, [], ◌∷◌, inl,
  inr, Bool-cases, if◌then◌else◌,
}
use devbridge.Common.Int.{ℤ, pos}
use devbridge.Common.Result.{Result, ok, err}
use devbridge.Odoo.Ledger.{Ledger, LedgerEntry}
use devbridge.Odoo.Size.{LabelGeometry}
use devbridge.Odoo.Batch.{
  NextLine, InvalidLine, NextBatch, PrintableLine, Progress, rejecting, known_or, unless_seen,
  member, handle_known_line, handle_invalid, encoded, decide_line, handle_line, each, starting,
  encode_line, sort_lines, lines_in_order, is_negative, is_zero, truncate_ack_error,
}
use devbridge.Odoo.Poll.{
  AckReply, accepted, business, transport, other, flush_reply, flush_each, record_all,
}
use devbridge.Odoo.Poll.Sent.{sent, sent-record_result, sent-mark_acked, sent-handle_known_line}

module _ {L : Type 0} where
  -- A step that does not touch what the ledger holds as sent of line `j`.
  abbrev pub Keeps : ℤ → (Progress L → Progress L) → Type 0
  Keeps j step = (p : Progress L) → sent j (step p).ledger ≡ sent j p.ledger

  known_or-Keeps :
      (j : ℤ) (x : Ledger × Bool) (rest : Progress L → Progress L) (p : Progress L)
      → Keeps j rest
      → sent j x.0 ≡ sent j p.ledger
      → sent j (known_or x rest p).ledger ≡ sent j p.ledger
  known_or-Keeps j (s, true) rest p keeps h = h
  known_or-Keeps j (s, false) rest p keeps h = keeps (record p { ledger = s }) ∙ h

  unless_seen-Keeps :
      (j line_id : ℤ) (rest : Progress L → Progress L)
      → Keeps j rest
      → Keeps j (unless_seen line_id rest)
  unless_seen-Keeps j line_id rest keeps p = by_seen (member line_id p.seen)
    where
      by_seen :
          (b : Bool)
          → sent j (if b then p else rest (record p { seen = line_id ∷ p.seen })).ledger
            ≡ sent j p.ledger
      by_seen true = refl
      by_seen false = keeps (record p { seen = line_id ∷ p.seen })

  -- What the ledger knows of the line comes before the rest of its handling.
  first_time-Keeps :
      (now : ℕ) (j i : ℤ) (rest : Progress L → Progress L)
      → Keeps j rest
      → Keeps j (unless_seen i (λ p. known_or (handle_known_line now i p.ledger) rest p))
  first_time-Keeps now j i rest keeps =
      unless_seen-Keeps j i (λ p. known_or (handle_known_line now i p.ledger) rest p)
        (λ p.
          known_or-Keeps j (handle_known_line now i p.ledger) rest p keeps
            (sent-handle_known_line now j i p.ledger))

  rejecting-Keeps : (now : ℕ) (j b i : ℤ) (e : Option String) → Keeps j (rejecting now b i e)
  rejecting-Keeps now j b i e p = sent-record_result now j b i (pos 0) e p.ledger

  handle_invalid-Keeps :
      (now : ℕ) (j b : ℤ) (bad : InvalidLine) → Keeps j (handle_invalid now b bad)
  unfolding handle_invalid
  handle_invalid-Keeps now j b bad p = by_id bad.line_id
    where
      by_id :
          (i : Option ℤ)
          → sent j (handle_invalid {L = L} now b (record bad { line_id = i }) p).ledger
            ≡ sent j p.ledger
      by_id none = refl
      by_id (some i) =
          first_time-Keeps now j i (rejecting now b i (some (truncate_ack_error bad.reason)))
            (rejecting-Keeps now j b i (some (truncate_ack_error bad.reason))) p

  module _ (show_int : ℤ → String) (encode : String → Result L) (now : ℕ) (j b : ℤ)
      (line : NextLine) where
    encoded-Keeps : (r : Result L) → Keeps j (encoded now b line r)
    encoded-Keeps (ok label) p = refl
    encoded-Keeps (err ack) p = rejecting-Keeps now j b line.line_id (some ack) p

    decide_line-Keeps : Keeps j (decide_line show_int encode now b line)
    unfolding decide_line
    decide_line-Keeps p = elim (Bool-cases (is_negative line.print_qty)) [
      | inl e ↦ rw e (rejecting-Keeps now j b line.line_id (some _) p)
      | inr e ↦ elim (Bool-cases (is_zero line.print_qty)) [
        | inl z ↦ rw (e, z) (rejecting-Keeps now j b line.line_id none p)
        | inr z ↦ rw (e, z) (encoded-Keeps (encode line.label_png_base64) p)
      ]
    ]

    handle_line-Keeps : Keeps j (handle_line show_int encode now b line)
    unfolding handle_line
    handle_line-Keeps =
        first_time-Keeps now j line.line_id (decide_line show_int encode now b line)
          decide_line-Keeps

  each-Keeps {ℓ} :
      {A : Type ℓ} (j : ℤ) (step : A → Progress L → Progress L)
      → ((x : A) → Keeps j (step x))
      → (xs : List A) → Keeps j (each step xs)
  unfolding each
  each-Keeps j step keeps [] p = refl
  each-Keeps j step keeps (x ∷ xs) p = each-Keeps j step keeps xs (step x p) ∙ keeps x p

pub sent-flush_each :
    (now : ℕ) (j : ℤ) (answer : LedgerEntry → AckReply) (es : List LedgerEntry) (owed : ℕ)
    (s : Ledger)
    → sent j (flush_each now answer es owed s).0 ≡ sent j s
unfolding flush_each
sent-flush_each now j answer [] owed s = refl
sent-flush_each now j answer (e ∷ es) owed s = by_reply (answer e) (sent-flush_each now j answer es)
  where
    by_reply :
        (a : AckReply)
        → ((owed : ℕ) (s : Ledger) → sent j (flush_each now answer es owed s).0 ≡ sent j s)
        → sent j (flush_reply now (flush_each now answer es) e a owed s).0 ≡ sent j s
    by_reply (accepted duplicate) ih = ih _ _ ∙ sent-mark_acked now j e.line_id _ s
    by_reply (business text) ih = ih _ _ ∙ sent-mark_acked now j e.line_id _ s
    by_reply (transport text) ih = refl
    by_reply (other text) ih = ih (owed + 1) s

pub sent-record_all :
    {L : Type 0} (now : ℕ) (j b : ℤ) (result : Result String) (ls : List (PrintableLine L))
    (s : Ledger)
    → sent j (record_all now b result ls s) ≡ sent j s
unfolding record_all
sent-record_all now j b result [] s = refl
sent-record_all now j b (ok evidence) (l ∷ ls) s =
    sent-record_all now j b (ok evidence) ls _ ∙ sent-record_result now j b l.line_id l.qty none s
sent-record_all now j b (err reason) (l ∷ ls) s =
    sent-record_all now j b (err reason) ls _
    ∙ sent-record_result now j b l.line_id (pos 0) (some (truncate_ack_error reason)) s

module _ {F L : Type 0} (show_int : ℤ → String) (decode : LabelGeometry F → String → Result L) where
  pub sent-sort_lines :
      (now : ℕ) (j b : ℤ) (batch : NextBatch F) (geometry : Result (LabelGeometry F)) (s : Ledger)
      → sent j (sort_lines show_int decode now b batch geometry s).ledger ≡ sent j s
  unfolding sort_lines
  sent-sort_lines now j b batch geometry s =
      each-Keeps j (handle_line show_int (encode_line decode geometry) now b)
        (handle_line-Keeps show_int (encode_line decode geometry) now j b) (lines_in_order batch)
        (each (handle_invalid now b) batch.invalid (starting s))
      ∙ each-Keeps j (handle_invalid now b) (handle_invalid-Keeps now j b) batch.invalid
          (starting s)
