-- ===== src/Bybit/Slots.antt =====
-- `_normalize_spot_qty` of app/brokers/bybit_private.py and `managed_position_slots` of
-- app/services/bybit_spot_execution.py.
use atlas_markets.Base.{
  ◌≤◌, sym, ℕ, ◌+◌, ◌≡◌, Bool, true, false, inl, inr, Option-cases, not, ◌&&◌, ◌||◌, Option, none,
  some, List, [], ◌∷◌, ◌++◌, length, length-append, arith, if◌then◌else◌,
}
use mathlib.Core.List.{append-nil, append_assoc}
use atlas_markets.Base.Text.{Text}
use atlas_markets.Base.Float.{Float, Raw, absent, malformed, number, float_or_zero}
use atlas_markets.Guard.Symbols.{canonical_symbol}
use atlas_markets.Bybit.Inventory.{Slots}

-- What the program uses of `decimal`: arithmetic, `Decimal(str(x))` of a float, and
-- `to_integral_value(rounding=ROUND_DOWN)`.
pub record Decimals (F D : Type 0) : Type 0 where
  pub of_float : F → D
  pub truncate : D → D

pub data NormalizeError : Type 0 where
  invalid_metadata invalid_quantity below_minimum : NormalizeError

pub data Normalized (D : Type 0) : Type 0 where
  quantity : D → Normalized D
  rejected : NormalizeError → Normalized D

module _ {F D : Type 0} ⦃dl : Float D⦄ (dec : Decimals F D) where
  open dl use {num, mul, div, lt, le}
  open dec use {of_float, truncate}

  rounded_down : D → D → D
  rounded_down requested step = mul (truncate (div requested step)) step

  checked : D → D → D → Normalized D
  unfolding rounded_down
  checked requested step minimum =
      if le requested (num 0 0) || le step (num 0 0)
      then rejected invalid_quantity
      else let normalized = rounded_down requested step in
        if le normalized (num 0 0) || lt normalized minimum
        then rejected below_minimum
        else quantity normalized

  -- The step and the minimum are texts; an empty one counts as 0.
  unfoldable pub normalize_spot_qty : F → Raw D → Raw D → Normalized D
  unfolding checked
  normalize_spot_qty qty step minimum = elim (float_or_zero step) [
    | none ↦ rejected invalid_metadata
    | some s ↦ elim (float_or_zero minimum) [
      | none ↦ rejected invalid_metadata
      | some m ↦ checked (of_float qty) s m
    ]
  ]

-- The lot size of an instrument, as `float` and as `Decimal` read its two texts. The step is never
-- the empty text, since `_spot_lot_size` refuses that.
pub record LotSize (F D : Type 0) : Type 0 where
  pub step_float : Raw F
  pub minimum_float : Raw F
  pub step : Raw D
  pub minimum : Raw D

module _ {F D : Type 0} ⦃fl : Float F⦄ ⦃dl : Float D⦄ (dec : Decimals F D) where
  open dl use {num, mul, div, lt, le}
  open dec use {of_float, truncate}

  -- `Decimal(str(x))` keeps the order of floats, and ROUND_DOWN goes towards zero: the whole steps in
  -- a value above zero make no more than the value.
  pub record RoundsDown : Type 0 where
    pub of_float_mono : (x y : F) → fl.le x y ≡ true → le (of_float x) (of_float y) ≡ true
    pub steps-le :
        (x s : D)
        → le x (num 0 0) ≡ false
        → le s (num 0 0) ≡ false
        → le (mul (truncate (div x s)) s) x ≡ true

  -- A quantity to send is above zero, not below the minimum, and no more than what was asked for.
  pub record IsNormalized (qty : F) (minimum : Raw D) (q : D) : Type 0 where
    pub above : le q (num 0 0) ≡ false
    pub enough : (m : D) × (float_or_zero minimum ≡ some m) × (lt q m ≡ false)
    pub no_more : le q (of_float qty) ≡ true

  module _ (rounds : RoundsDown) where
    pub normalize_spot_qty-IsNormalized :
        (qty : F) (step minimum : Raw D) {q : D}
        → normalize_spot_qty dec qty step minimum ≡ quantity q
        → IsNormalized qty minimum q
    unfolding normalize_spot_qty checked rounded_down
    normalize_spot_qty-IsNormalized qty step minimum {q} h =
        elim (Option-cases (float_or_zero step)) [
          | inl bad ↦ ground arith
          | inr (s, e) ↦ elim (Option-cases (float_or_zero minimum)) [
            | inl bad ↦ ground arith
            | inr (m, k) ↦
                let same : q ≡ mul (truncate (div (of_float qty) s)) s = ground arith in
                let big : le (of_float qty) (num 0 0) ≡ false = ground arith in
                let wide : le s (num 0 0) ≡ false = ground arith in
                record {
                  above = ground arith;
                  enough = (m, k, ground arith);
                  no_more = rw same (rounds.steps-le (of_float qty) s big wide);
                }
          ]
        ]

-- A managed inventory row, as the slots read it.
pub record Holding (F : Type 0) : Type 0 where
  pub symbol : Text
  pub managed_quantity : F

-- `float(step)`, with its error
abbrev pub float_of : {F : Type 0} → Raw F → Option F
float_of absent = none
float_of malformed = none
float_of (number x) = some x

-- What is known of one holding: a full slot, dust, or a slot that could not be checked.
pub data SlotKind : Type 0 where
  full dusty unknown : SlotKind

pub record SlotCount : Type 0 where
  pub count : ℕ
  pub dust_symbols : List Text
  pub unverified : List Text

-- The dictionary that `managed_buy_is_blocked` reads.
abbrev pub as_slots : SlotCount → Slots
as_slots s = record { quantity_dust_symbols = s.dust_symbols; unverified_symbols = s.unverified }

module _ {F D : Type 0} ⦃fl : Float F⦄ ⦃dl : Float D⦄ (dec : Decimals F D) where
  open fl use {num as fnum, lt as flt, le as fle, is_finite as ffinite}

  abbrev kind_of_quantity : Normalized D → SlotKind
  kind_of_quantity (quantity q) = full
  kind_of_quantity (rejected below_minimum) = dusty
  kind_of_quantity (rejected invalid_metadata) = unknown
  kind_of_quantity (rejected invalid_quantity) = unknown

  abbrev valid_metadata : F → F → F → Bool
  valid_metadata step minimum qty =
      ffinite step
      && ffinite minimum
      && ffinite qty
      && not (fle step (fnum 0 0) || flt minimum (fnum 0 0) || fle qty (fnum 0 0))

  unfoldable pub slot_kind : Option (LotSize F D) → F → SlotKind
  slot_kind none qty = unknown
  slot_kind (some lot) qty = elim (float_of lot.step_float) [
    | none ↦ unknown
    | some step ↦ elim (float_or_zero lot.minimum_float) [
      | none ↦ unknown
      | some minimum ↦
          if valid_metadata step minimum qty
          then kind_of_quantity (normalize_spot_qty dec qty lot.step lot.minimum)
          else unknown
    ]
  ]

  abbrev pub add_slot : Text → SlotKind → SlotCount → SlotCount
  add_slot symbol full s = record s { count = s.count + 1 }
  add_slot symbol dusty s = record s { dust_symbols = s.dust_symbols ++ (symbol ∷ []) }
  add_slot symbol unknown s = record s {
    count = s.count + 1;
    unverified = s.unverified ++ (symbol ∷ []);
  }

  -- `lot` is what the exchange answers for a symbol; `none` where the call raises.
  slots_from : (Text → Option (LotSize F D)) → SlotCount → List (Holding F) → SlotCount
  slots_from lot s [] = s
  slots_from lot s (h ∷ hs) =
      let symbol = canonical_symbol h.symbol in
      slots_from lot (add_slot symbol (slot_kind (lot symbol) h.managed_quantity) s) hs

  unfoldable pub managed_position_slots :
      (Text → Option (LotSize F D)) → List (Holding F) → SlotCount
  unfolding slots_from
  managed_position_slots lot holdings =
      slots_from lot (record { count = 0; dust_symbols = []; unverified = [] }) holdings

  -- The symbols of the holdings whose quantity the exchange's lot size turns down as too small.
  abbrev pub dusty_symbols : (Text → Option (LotSize F D)) → List (Holding F) → List Text
  dusty_symbols lot [] = []
  dusty_symbols lot (h ∷ hs) =
      elim (slot_kind (lot (canonical_symbol h.symbol)) h.managed_quantity) [
        | dusty ↦ canonical_symbol h.symbol ∷ dusty_symbols lot hs
        | full ↦ dusty_symbols lot hs
        | unknown ↦ dusty_symbols lot hs
      ]

  slots_from-dust :
      (lot : Text → Option (LotSize F D)) (s : SlotCount) (hs : List (Holding F))
      → (slots_from lot s hs).dust_symbols ≡ s.dust_symbols ++ dusty_symbols lot hs
  unfolding slots_from
  slots_from-dust lot s [] = sym (append-nil s.dust_symbols)
  slots_from-dust lot s (h ∷ hs) =
      let symbol = canonical_symbol h.symbol in
      let kind = slot_kind (lot symbol) h.managed_quantity in
      ground (
        arith,
        slots_from-dust lot (add_slot symbol kind s) hs,
        append_assoc s.dust_symbols (symbol ∷ []) (dusty_symbols lot hs),
      )

  slots_from-count :
      (lot : Text → Option (LotSize F D)) (s : SlotCount) (hs : List (Holding F))
      → let r = slots_from lot s hs in
        (r.count + length r.dust_symbols ≡ s.count + length s.dust_symbols + length hs)
        × (length r.unverified + s.count ≤ r.count + length s.unverified)
  unfolding slots_from
  slots_from-count lot s [] = omega arith
  slots_from-count lot s (h ∷ hs) =
      let symbol = canonical_symbol h.symbol in
      let kind = slot_kind (lot symbol) h.managed_quantity in
      ground (
        arith,
        slots_from-count lot (add_slot symbol kind s) hs,
        length-append s.dust_symbols (symbol ∷ []),
        length-append s.unverified (symbol ∷ []),
      )

  -- Every holding takes a slot or is reported as dust, never both, what could not be checked takes
  -- a slot, and the symbols reported as dust are those of the holdings that are too small to sell.
  pub managed_position_slots-count :
      (lot : Text → Option (LotSize F D)) (hs : List (Holding F))
      → let r = managed_position_slots lot hs in
        (r.count + length r.dust_symbols ≡ length hs)
        × (length r.unverified ≤ r.count)
        × (r.dust_symbols ≡ dusty_symbols lot hs)
  unfolding managed_position_slots
  managed_position_slots-count lot hs =
      let s : SlotCount = record { count = 0; dust_symbols = []; unverified = [] } in
      let (total, checked) = slots_from-count lot s hs in
      (omega arith, omega arith, slots_from-dust lot s hs)
