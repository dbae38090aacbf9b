-- ===== src/Guard/Symbols.antt =====
-- `canonical_symbol`, `exposure_symbols` and `pending_order_symbols` of
-- app/services/execution_guard.py. A set of symbols is a list without repetitions.
use atlas_markets.Base.{Bool, true, false, Option, none, some, List, [], ◌∷◌, ◌++◌, if◌then◌else◌}
use atlas_markets.Base.Text.{Text, codes, mem_text, upper, strip, remove}
use atlas_markets.Base.Float.{Float, Raw, absent, malformed, number, float_or_zero}

-- `str(symbol or "").strip().upper().replace("/", "").replace(" ", "")`; a missing symbol is the
-- empty text.
unfoldable pub canonical_symbol : Text → Text
canonical_symbol symbol = remove b' ' (remove b'/' (upper (strip symbol)))

abbrev pub is_empty : Text → Bool
is_empty [] = true
is_empty (c ∷ s) = false

-- `out.add(symbol)` under `if symbol:`
abbrev pub add_symbol : Text → List Text → List Text
add_symbol symbol out =
    if is_empty symbol then out else if mem_text symbol out then out else out ++ (symbol ∷ [])

-- A broker's order: three spellings of the status, and the quantity still open, where a missing
-- value is `absent` and a text that `float` refuses is `malformed`.
pub record OrderRow (F : Type 0) : Type 0 where
  pub symbol : Text
  pub status : Text
  pub order_status : Text
  pub order_status_camel : Text
  pub remaining : Raw F

pub record PositionRow (F : Type 0) : Type 0 where
  pub symbol : Text
  pub quantity : Raw F

-- `a or b` on texts
abbrev pub or_text : Text → Text → Text
or_text s t = if is_empty s then t else s

abbrev pub terminal : List Text
terminal =
    codes "FILLED"
    ∷ codes "CANCELLED"
    ∷ codes "CANCELED"
    ∷ codes "REJECTED"
    ∷ codes "EXPIRED"
    ∷ codes "INACTIVE"
    ∷ codes "DONE"
    ∷ codes "DEACTIVATED"
    ∷ []

module _ {F : Type 0} ⦃fl : Float F⦄ where
  open fl use {num, le, eq}

  unfoldable pub row_status : OrderRow F → Text
  row_status row =
      upper (strip (or_text row.status (or_text row.order_status row.order_status_camel)))

  -- `remaining is not None` and `float(remaining) <= 0`; a failed conversion is passed over
  abbrev pub nothing_remains : Raw F → Bool
  nothing_remains absent = false
  nothing_remains malformed = false
  nothing_remains (number x) = le x (num 0 0)

  unfoldable pub pending_from : List Text → List (OrderRow F) → List Text
  pending_from out [] = out
  pending_from out (row ∷ rows) =
      pending_from
        (if mem_text (row_status row) terminal
          then out
          else if nothing_remains row.remaining
          then out
          else add_symbol (canonical_symbol row.symbol) out)
        rows

  unfoldable pub pending_order_symbols : List (OrderRow F) → List Text
  unfolding pending_from
  pending_order_symbols rows = pending_from [] rows

  -- The loop of `exposure_symbols`; `none` is the exception of a quantity that is no number.
  unfoldable pub exposure_from : Bool → List Text → List (PositionRow F) → Option (List Text)
  exposure_from keyed out [] = some out
  exposure_from false out (row ∷ rows) =
      exposure_from false (add_symbol (canonical_symbol row.symbol) out) rows
  exposure_from true out (row ∷ rows) = elim (float_or_zero row.quantity) [
    | none ↦ none
    | some q ↦
        exposure_from true
          (if eq q (num 0 0) then out else add_symbol (canonical_symbol row.symbol) out) rows
  ]

  -- `keyed` says that a `quantity_key` is given.
  unfoldable pub exposure_symbols : Bool → List (PositionRow F) → Option (List Text)
  unfolding exposure_from
  exposure_symbols keyed rows = exposure_from keyed [] rows
