-- ===== src/Odoo/Ledger.antt =====
-- The durable ledger of the lines that the source was offered (odoo_source/ledger.rs of
-- crates/devbridge-client/src). Times are numbers of days; the texts that the code compares sort as
-- they do.
use Prim.Native.Char.{code}
use devbridge.Common.{
  ℕ, ◌+◌, ◌-◌, String, Bool, true, false, not, ◌&&◌, ◌||◌, Option, none, some, List, [], ◌∷◌, ◌==◌,
  leb, ltb, if◌then◌else◌, is_some, sort_by, filter, length, nat_eq, string_eq,
}
use devbridge.Common.Text.{starts_with}
use devbridge.Common.Int.{ℤ, pos, int_eq, int_leb}
use devbridge.Common.Result.{Result, ok, err}
use devbridge.Common.Table.{find, insert, update, update_all, delete}

pub data LineState : Type 0 where
  sending done : LineState

-- Where the ack of a `done` line stands.
pub data AckState : Type 0 where
  owed accepted refused : AckState

-- The columns of a line.
pub record Line : Type 0 where
  pub batch_id : ℤ
  pub state : LineState
  pub printed_qty : ℤ
  pub error : Option String
  pub acked : Bool
  pub ack_note : Option String
  pub sent : Bool
  pub updated_at : ℕ

-- The table `odoo_lines`, under the line ids.
abbrev pub Ledger : Type 0
Ledger = List (ℤ × Line)

abbrev pub interrupted_reason : String
interrupted_reason =
    "interrupted: devbridge client restarted before print verification - check the printer, reprint manually if missing"

abbrev pub prune_after_days : ℕ
prune_after_days = 90

abbrev pub ack_note_ok : String
ack_note_ok = "ok"

abbrev pub ack_note_duplicate : String
ack_note_duplicate = "duplicate"

abbrev pub ack_note_refused_prefix : String
ack_note_refused_prefix = "refused: "

abbrev pub is_sending : LineState → Bool
is_sending sending = true
is_sending done = false

unfoldable pub ack_state : Bool → Option String → AckState
unfolding starts_with
ack_state false _ = owed
ack_state true none = accepted
ack_state true (some n) = if starts_with ack_note_refused_prefix n then refused else accepted

-- What the code reads of a row.
pub record LedgerEntry : Type 0 where
  pub line_id : ℤ
  pub batch_id : ℤ
  pub state : LineState
  pub printed_qty : ℤ
  pub error : Option String
  pub ack : AckState
  pub sent : Bool

unfoldable pub row_to_entry : ℤ → Line → LedgerEntry
row_to_entry line_id r = record {
  line_id = line_id;
  batch_id = r.batch_id;
  state = r.state;
  printed_qty = r.printed_qty;
  error = r.error;
  ack = ack_state r.acked r.ack_note;
  sent = r.sent;
}

abbrev pub entry_of : ℤ → Option Line → Option LedgerEntry
entry_of line_id none = none
entry_of line_id (some r) = some (row_to_entry line_id r)

unfoldable pub get : ℤ → Ledger → Option LedgerEntry
get line_id s = entry_of line_id (find line_id s)

abbrev pub sending_row : ℕ → ℤ → Line
sending_row now batch_id = record {
  batch_id = batch_id;
  state = sending;
  printed_qty = pos 0;
  error = none;
  acked = false;
  ack_note = none;
  sent = true;
  updated_at = now;
}

-- One transaction: a line that is there already makes it an error, and nothing is stored.
unfoldable pub mark_sending : ℕ → ℤ → List ℤ → Ledger → Result Ledger
mark_sending now batch_id [] s = ok s
mark_sending now batch_id (line_id ∷ ids) s =
    let rest = mark_sending now batch_id ids (insert line_id (sending_row now batch_id) s) in
    if is_some (find line_id s) then err "line already recorded" else rest

abbrev pub closed : ℕ → ℤ → Option String → Line → Line
closed now printed_qty error r = record r {
  state = done;
  printed_qty = printed_qty;
  error = error;
  acked = false;
  ack_note = none;
  updated_at = now;
}

abbrev pub verdict_row : ℕ → ℤ → ℤ → Option String → Line
verdict_row now batch_id printed_qty error = record {
  batch_id = batch_id;
  state = done;
  printed_qty = printed_qty;
  error = error;
  acked = false;
  ack_note = none;
  sent = false;
  updated_at = now;
}

-- The final outcome of a line; a line that was rejected before any send gets its row here.
unfoldable pub record_result : ℕ → ℤ → ℤ → ℤ → Option String → Ledger → Ledger
record_result now batch_id line_id printed_qty error s =
    if is_some (find line_id s)
    then update line_id (λ r. true) (closed now printed_qty error) s
    else insert line_id (verdict_row now batch_id printed_qty error) s

unfoldable pub mark_acked : ℕ → ℤ → String → Ledger → Ledger
mark_acked now line_id note s =
    update line_id (λ r. true)
      (λ r. record r { acked = true; ack_note = some note; updated_at = now }) s

abbrev pub is_done : Line → Bool
is_done r = not (is_sending r.state)

unfoldable pub reopen_ack : ℤ → Ledger → Ledger
reopen_ack line_id s = update line_id is_done (λ r. record r { acked = false }) s

-- `DELETE … WHERE line_id = ?1`
unfoldable pub forget : ℤ → Ledger → Ledger
forget line_id [] = []
forget line_id ((j, r) ∷ s) =
    let rest = forget line_id s in if j == line_id then rest else (j, r) ∷ rest

abbrev pub owes : Line → Bool
owes r = is_done r && not r.acked

abbrev pub by_batch : ℤ × Line → ℤ × Line → Bool
by_batch (i, a) (j, b) =
    not (int_leb b.batch_id a.batch_id) || (a.batch_id == b.batch_id && int_leb i j)

abbrev pub entries : Ledger → List LedgerEntry
entries [] = []
entries ((i, r) ∷ s) = row_to_entry i r ∷ entries s

abbrev pub on_row : (Line → Bool) → ℤ × Line → Bool
on_row test (i, r) = test r

unfoldable pub pending_acks : Ledger → List LedgerEntry
pending_acks s = entries (sort_by by_batch (filter (on_row owes) s))

abbrev pub ids_of : Ledger → List ℤ
ids_of [] = []
ids_of ((i, r) ∷ s) = i ∷ ids_of s

abbrev pub mid_print : Line → Bool
mid_print r = is_sending r.state

abbrev pub interrupted : ℕ → Line → Line
interrupted now r = record r {
  state = done;
  printed_qty = pos 0;
  error = some interrupted_reason;
  acked = false;
  updated_at = now;
}

unfoldable pub recover_interrupted : ℕ → Ledger → Ledger × List ℤ
recover_interrupted now s =
    (update_all mid_print (interrupted now) s, ids_of (filter (on_row mid_print) s))

abbrev lower : ℕ → ℕ
lower c = if leb 65 c && leb c 90 then c + 32 else c

-- `note LIKE 'refused: %'`; LIKE ignores the case of ASCII letters.
abbrev like_prefix : String → String → Bool
like_prefix String.[] text = true
like_prefix (String.◌∷◌ c p) String.[] = false
like_prefix (String.◌∷◌ c p) (String.◌∷◌ d text) =
    lower (code c) == lower (code d) && like_prefix p text

abbrev is_refusal : Option String → Bool
is_refusal none = false
is_refusal (some note) = like_prefix ack_note_refused_prefix note

unfoldable pub is_prunable : ℕ → Line → Bool
is_prunable now r =
    r.acked && (ltb r.updated_at (now - prune_after_days) && not (is_refusal r.ack_note))

unfoldable pub prune : ℕ → Ledger → Ledger × ℕ
prune now s = (delete (is_prunable now) s, length (filter (on_row (is_prunable now)) s))
