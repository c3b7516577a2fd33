-- ===== src/Odoo/Size.antt =====
-- The label roll of a batch (odoo_source/label_size.rs of crates/devbridge-client/src). The floating
-- point numbers and their order, equality and text are arguments.
use Prim.Native.String.{◌++◌ as ◌⧺◌}
use devbridge.Common.{ℕ, String, Bool, ◌&&◌, Option, none, some, if◌then◌else◌}
use devbridge.Common.Int.{ℤ}
use devbridge.Common.Result.{Result, ok, err, ◌>>=◌}

-- A number of a batch, as Odoo sent it.
pub data BatchNumber (F : Type 0) : Type 0 where
  absent : BatchNumber F
  number : F → BatchNumber F
  not_a_number : String → BatchNumber F

pub record BatchLabelSize (F : Type 0) : Type 0 where
  pub width_mm : BatchNumber F
  pub height_mm : BatchNumber F
  pub dpi : BatchNumber F

pub data SizeSource : Type 0 where
  batch config : SizeSource

pub record LabelGeometry (F : Type 0) : Type 0 where
  pub width_mm : F
  pub height_mm : F
  pub dpi : ℕ
  pub rotate_180 : Bool
  pub x_offset_dots : ℤ
  pub y_offset_dots : ℤ

pub record BatchGeometry (F : Type 0) : Type 0 where
  pub geometry : LabelGeometry F
  pub source : SizeSource

-- The roll of a label, in millimetres.
pub record Roll (F : Type 0) : Type 0 where
  pub width_mm : F
  pub height_mm : F

unfoldable pub roll_of : {F : Type 0} → LabelGeometry F → Roll F
roll_of g = record { width_mm = g.width_mm; height_mm = g.height_mm }

-- The reason of a refusal, as the ack of every printable line carries it.
unfoldable pub ack_text : String → String
ack_text reason = "size: " ⧺ reason

unfoldable pub given : {F : Type 0} → String → BatchNumber F → Result (Option F)
given name absent = ok none
given name (number n) = ok (some n)
given name (not_a_number raw) = err (name ⧺ (" " ⧺ (raw ⧺ " is not a number")))

-- The pair of a batch, or none where it names nothing.
unfoldable pub named_pair : {F : Type 0} → Option F → Option F → Option F → Result (Option (F × F))
named_pair none none none = ok none
named_pair (some w) (some h) dpi = ok (some (w, h))
named_pair (some w) none dpi = err "label_width_mm without label_height_mm"
named_pair none (some h) dpi = err "label_height_mm without label_width_mm"
named_pair none none (some d) = err "dpi without label_width_mm / label_height_mm"

-- The order, the equality, the whole numbers and the text of the floating point numbers.
pub record Floats (F : Type 0) : Type 0 where
  pub le : F → F → Bool
  pub eq : F → F → Bool
  pub whole : ℕ → F
  pub show : F → String

module _ {F : Type 0} (floats : Floats F) where
  unfoldable pub within : String → F → ℕ → ℕ → Result (Unit {0})
  within name mm least most =
      if floats.le (floats.whole least) mm && floats.le mm (floats.whole most)
      then ok tt
      else err (
          name
          ⧺ (" "
              ⧺ (floats.show mm
                  ⧺ (" mm outside "
                      ⧺ (floats.show (floats.whole least)
                          ⧺ ("-" ⧺ (floats.show (floats.whole most) ⧺ " mm")))))))

  unfoldable pub supported_dpi : F → Result ℕ
  supported_dpi dpi =
      if floats.eq (floats.whole 203) dpi
      then ok 203
      else if floats.eq (floats.whole 300) dpi
      then ok 300
      else err ("dpi " ⧺ (floats.show dpi ⧺ " is not 203 or 300"))

  unfoldable pub dpi_or : ℕ → Option F → Result ℕ
  unfolding supported_dpi
  dpi_or own none = ok own
  dpi_or own (some d) = supported_dpi d

  -- The batch's own pair, within what the printer takes.
  unfoldable pub sized : LabelGeometry F → F → F → Option F → Result (BatchGeometry F)
  unfolding within dpi_or
  sized own w h dpi = do
    _ ← within "label_width_mm" w 10 108
    _ ← within "label_height_mm" h 10 300
    d ← dpi_or own.dpi dpi
    ok (record {
      geometry = record own { width_mm = w; height_mm = h; dpi = d };
      source = SizeSource.batch;
    })

  abbrev of_pair : LabelGeometry F → Option F → Option (F × F) → Result (BatchGeometry F)
  of_pair g dpi none = ok (record { geometry = g; source = SizeSource.config })
  of_pair g dpi (some (w, h)) = sized g w h dpi

  -- The roll that a batch prints on: its own where it names one, else the configured one.
  unfoldable pub geometry_for : LabelGeometry F → BatchLabelSize F → Result (BatchGeometry F)
  geometry_for own size = do
    width ← given "label_width_mm" size.width_mm
    height ← given "label_height_mm" size.height_mm
    dpi ← given "dpi" size.dpi
    pair ← named_pair width height dpi
    of_pair own dpi pair
