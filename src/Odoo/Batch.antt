-- ===== src/Odoo/Batch.antt =====
-- What the source decides about the lines of a batch (odoo_source/mod.rs and rpc.rs of
-- crates/devbridge-client/src). The decoding of a label is an argument.
use Prim.Native.String.{◌++◌ as ◌⧺◌}
use devbridge.Common.{
  ℕ, suc, ◌+◌, String, Bool, true, false, Option, none, some, List, [], ◌∷◌, ◌++◌, ◌==◌, nat_eq,
  if◌then◌else◌, sort_by, any,
}
use devbridge.Common.Int.{ℤ, pos, negsuc, int_eq, int_leb}
use devbridge.Common.Result.{Result, ok, err}
use devbridge.Odoo.Ledger.{
  Ledger, LedgerEntry, sending, done, owed, accepted, refused, get, record_result, reopen_ack,
  forget, interrupted_reason,
}
use devbridge.Odoo.Size.{LabelGeometry, BatchLabelSize, ack_text}

pub record NextLine : Type 0 where
  pub line_id : ℤ
  pub sequence : ℤ
  pub product_name : String
  pub print_qty : ℤ
  pub best_before : String
  pub label_png_base64 : String
  pub line_type : String

pub record InvalidLine : Type 0 where
  pub line_id : Option ℤ
  pub reason : String

pub record NextBatch (F : Type 0) : Type 0 where
  pub batch_id : Option ℤ
  pub production_date : String
  pub lines : List NextLine
  pub invalid : List InvalidLine
  pub label_size : BatchLabelSize F

abbrev by_sequence : NextLine → NextLine → Bool
by_sequence a b = int_leb a.sequence b.sequence

unfoldable pub lines_in_order : {F : Type 0} → NextBatch F → List NextLine
lines_in_order batch = sort_by by_sequence batch.lines

unfoldable pub take_chars : ℕ → String → String
take_chars n String.[] = String.[]
take_chars ℕ.zero (String.◌∷◌ c text) = String.[]
take_chars (suc n) (String.◌∷◌ c text) = String.◌∷◌ c (take_chars n text)

abbrev pub max_ack_error_chars : ℕ
max_ack_error_chars = 200

unfoldable pub truncate_ack_error : String → String
unfolding take_chars
truncate_ack_error text = take_chars max_ack_error_chars text

-- A line of the batch that will be printed; `L` is a label on its roll.
pub record PrintableLine (L : Type 0) : Type 0 where
  pub line_id : ℤ
  pub qty : ℤ
  pub label : L

-- What became of the lines so far.
pub record Progress (L : Type 0) : Type 0 where
  pub ledger : Ledger
  pub printable : List (PrintableLine L)
  pub rejected : ℕ
  pub reacked : ℕ
  pub seen : List ℤ
  pub unackable : ℕ

-- A line that the ledger may know: whether it must not be printed now.
unfoldable pub decide_known : ℕ → ℤ → LedgerEntry → Ledger → Ledger × Bool
decide_known now line_id known s = elim known.state [
  | sending ↦ (record_result now known.batch_id line_id (pos 0) (some interrupted_reason) s, true)
  | done ↦ elim known.ack [
    | owed ↦ (s, true)
    | accepted ↦ if known.sent then (reopen_ack line_id s, true) else (forget line_id s, false)
    | refused ↦ if known.sent then (reopen_ack line_id s, true) else (forget line_id s, false)
  ]
]

abbrev pub decide_found : ℕ → ℤ → Option LedgerEntry → Ledger → Ledger × Bool
decide_found now line_id none s = (s, false)
decide_found now line_id (some known) s = decide_known now line_id known s

unfoldable pub handle_known_line : ℕ → ℤ → Ledger → Ledger × Bool
unfolding decide_known
handle_known_line now line_id s = decide_found now line_id (get line_id s) s

abbrev pub member : ℤ → List ℤ → Bool
member k ids = any (λ i. i == k) ids

abbrev pub is_negative : ℤ → Bool
is_negative (pos n) = false
is_negative (negsuc n) = true

abbrev pub is_zero : ℤ → Bool
is_zero (pos n) = n == 0
is_zero (negsuc n) = false

module _ {L : Type 0} where
  abbrev pub rejecting : ℕ → ℤ → ℤ → Option String → Progress L → Progress L
  rejecting now batch_id line_id error p = record p {
    ledger = record_result now batch_id line_id (pos 0) error p.ledger;
    rejected = p.rejected + 1;
  }

  abbrev pub known_or : Ledger × Bool → (Progress L → Progress L) → Progress L → Progress L
  known_or (s, true) rest p = record p { ledger = s; reacked = p.reacked + 1 }
  known_or (s, false) rest p = rest (record p { ledger = s })

  -- The part of a line's handling that a repeat skips.
  abbrev pub unless_seen : ℤ → (Progress L → Progress L) → Progress L → Progress L
  unless_seen line_id rest p =
      if member line_id p.seen then p else rest (record p { seen = line_id ∷ p.seen })

  unfoldable pub handle_invalid : ℕ → ℤ → InvalidLine → Progress L → Progress L
  unfolding handle_known_line
  handle_invalid now batch_id bad p = elim bad.line_id [
    | none ↦ record p { unackable = p.unackable + 1 }
    | some line_id ↦
        unless_seen line_id
          (λ p.
            known_or (handle_known_line now line_id p.ledger)
              (rejecting now batch_id line_id (some (truncate_ack_error bad.reason))) p)
          p
  ]

  abbrev pub encoded : ℕ → ℤ → NextLine → Result L → Progress L → Progress L
  encoded now batch_id line (ok label) p = record p {
    printable =
        p.printable
        ++ (record { line_id = line.line_id; qty = line.print_qty; label = label }) ∷ [];
  }
  encoded now batch_id line (err ack) p = rejecting now batch_id line.line_id (some ack) p

  module _ (show_int : ℤ → String) (encode_line : String → Result L) where
    -- A new line: its quantity, then its label, decide.
    unfoldable pub decide_line : ℕ → ℤ → NextLine → Progress L → Progress L
    decide_line now batch_id line p =
        if is_negative line.print_qty
        then rejecting now batch_id line.line_id
            (some ("invalid print_qty " ⧺ show_int line.print_qty)) p
        else if is_zero line.print_qty
        then rejecting now batch_id line.line_id none p
        else encoded now batch_id line (encode_line line.label_png_base64) p

    unfoldable pub handle_line : ℕ → ℤ → NextLine → Progress L → Progress L
    unfolding handle_known_line decide_line
    handle_line now batch_id line p =
        unless_seen line.line_id
          (λ p.
            known_or (handle_known_line now line.line_id p.ledger) (decide_line now batch_id line)
              p)
          p

  unfoldable pub each {ℓ} :
      {A : Type ℓ} → (A → Progress L → Progress L) → List A → Progress L → Progress L
  each step [] p = p
  each step (x ∷ xs) p = each step xs (step x p)

  abbrev pub starting : Ledger → Progress L
  starting s = record {
    ledger = s;
    printable = [];
    rejected = 0;
    reacked = 0;
    seen = [];
    unackable = 0;
  }

-- A label on the batch's roll, or the ack of its refusal.
unfoldable pub encode_line :
    {F L : Type 0}
    → (LabelGeometry F → String → Result L)
    → Result (LabelGeometry F)
    → String
    → Result L
encode_line decode (ok geometry) png = decode geometry png
encode_line decode (err reason) png = err (ack_text reason)

-- The lines of a batch in order, malformed ones first.
unfoldable pub sort_lines :
    {F L : Type 0}
    → (ℤ → String)
    → (LabelGeometry F → String → Result L)
    → ℕ
    → ℤ
    → NextBatch F
    → Result (LabelGeometry F)
    → Ledger
    → Progress L
unfolding handle_invalid handle_line each
sort_lines show_int decode now batch_id batch geometry s =
    each (handle_line show_int (encode_line decode geometry) now batch_id) (lines_in_order batch)
      (each (handle_invalid now batch_id) batch.invalid (starting s))
