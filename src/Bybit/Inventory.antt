-- ===== src/Bybit/Inventory.antt =====
-- `apply_managed_fill` and `managed_buy_is_blocked` of app/services/bybit_spot_execution.py.
use atlas_markets.Base.{
  ◌≡◌, refl, Bool, true, false, not, ◌||◌, Option, none, some, List, ◌⊎◌, inl, inr, arith,
  if◌then◌else◌,
}
use atlas_markets.Base.Text.{Text, codes, text_eq, mem_text, upper}
use atlas_markets.Base.Float.{Float, fmax, IsOrdered, HasSigns}

pub data Side : Type 0 where
  buy sell : Side

-- `str(side or "").upper()` tested against BUY and SELL
unfoldable pub side_of : Text → Option Side
side_of text =
    if text_eq (upper text) (codes "BUY")
    then some buy
    else if text_eq (upper text) (codes "SELL")
    then some sell
    else none

-- A row of `bybit_managed_inventory`. The quantities are columns that are never null.
pub record Inventory (F : Type 0) : Type 0 where
  pub managed_quantity : F
  pub average_entry_price : Option F
  pub cumulative_bought_quantity : F
  pub cumulative_sold_quantity : F

pub data FillError : Type 0 where
  invalid_managed_fill : FillError
  sell_exceeds_managed_inventory : FillError

-- The row after a fill, or the ValueError, which is raised before the row is written.
pub data Applied (F : Type 0) : Type 0 where
  applied : Inventory F → Applied F
  refused : FillError → Applied F

pub Applied-cases :
    {F : Type 0} (a : Applied F)
    → ((e : FillError) × (a ≡ refused e)) ⊎ ((i : Inventory F) × (a ≡ applied i))
Applied-cases (applied i) = inr (i, refl)
Applied-cases (refused e) = inl (e, refl)

-- The symbols that `managed_position_slots` found to be dust, and those it could not check.
pub record Slots : Type 0 where
  pub quantity_dust_symbols : List Text
  pub unverified_symbols : List Text

module _ {F : Type 0} ⦃fl : Float F⦄ where
  open fl use {num, add, sub, mul, div, lt, le, is_finite}

  abbrev pub float_or_none : Option F → F
  float_or_none none = num 0 0
  float_or_none (some x) = x

  -- 1e-12
  abbrev pub dust : F
  dust = num 1 12

  bought : Inventory F → F → Option F → Inventory F
  bought inventory quantity price =
      let current = inventory.managed_quantity in
      let old_cost = mul current (float_or_none inventory.average_entry_price) in
      let new_quantity = add current quantity in
      let fill_price = float_or_none price in
      record {
        managed_quantity = new_quantity;
        average_entry_price =
            if lt (num 0 0) fill_price
            then some (div (add old_cost (mul quantity fill_price)) new_quantity)
            else inventory.average_entry_price;
        cumulative_bought_quantity = add inventory.cumulative_bought_quantity quantity;
        cumulative_sold_quantity = inventory.cumulative_sold_quantity;
      }

  sold : Inventory F → F → Inventory F
  sold inventory quantity =
      let left = fmax (num 0 0) (sub inventory.managed_quantity quantity) in
      let closed = le left dust in
      record {
        managed_quantity = if closed then num 0 0 else left;
        average_entry_price = if closed then none else inventory.average_entry_price;
        cumulative_bought_quantity = inventory.cumulative_bought_quantity;
        cumulative_sold_quantity = add inventory.cumulative_sold_quantity quantity;
      }

  unfoldable pub apply_managed_fill : Inventory F → Option Side → F → Option F → Applied F
  unfolding bought sold
  apply_managed_fill inventory none quantity price = refused invalid_managed_fill
  apply_managed_fill inventory (some buy) quantity price =
      if le quantity (num 0 0)
      then refused invalid_managed_fill
      else applied (bought inventory quantity price)
  apply_managed_fill inventory (some sell) quantity price =
      if le quantity (num 0 0)
      then refused invalid_managed_fill
      else if lt (add inventory.managed_quantity dust) quantity
      then refused sell_exceeds_managed_inventory
      else applied (sold inventory quantity)

  -- `name` is the canonical symbol.
  unfoldable pub managed_buy_is_blocked : Text → F → Slots → Bool
  managed_buy_is_blocked name value slots =
      if not (is_finite value) || lt value (num 0 0)
      then true
      else if le value dust
      then false
      else not (mem_text name slots.quantity_dust_symbols) || mem_text name slots.unverified_symbols

  -- No managed quantity is negative.
  abbrev pub IsNonNegative : Inventory F → Type 0
  IsNonNegative inventory = le (num 0 0) inventory.managed_quantity ≡ true

  abbrev pub Keeps : Applied F → Type 0
  Keeps (applied inventory) = IsNonNegative inventory
  Keeps (refused e) = Unit

  module _ (order : IsOrdered F) (signs : HasSigns F) where
    open order use {le_of_lt}
    open signs use {zero_refl, add_nonneg, pos_of_not_le}

    -- A fill that is applied keeps the managed quantity at zero or above: a finite quantity is
    -- bought, and a sale never takes the quantity below zero.
    pub apply_managed_fill-IsNonNegative :
        (inventory : Inventory F) (side : Option Side) (quantity : F) (price : Option F)
        → IsNonNegative inventory
        → is_finite quantity ≡ true
        → Keeps (apply_managed_fill inventory side quantity price)
    unfolding apply_managed_fill
    apply_managed_fill-IsNonNegative inventory none quantity price h f = tt
    apply_managed_fill-IsNonNegative inventory (some buy) quantity price h f = ground (
      arith,
      pos_of_not_le quantity,
      le_of_lt (num 0 0) quantity,
      add_nonneg inventory.managed_quantity quantity,
    )
    apply_managed_fill-IsNonNegative inventory (some sell) quantity price h f =
        ground (arith, zero_refl, le_of_lt (num 0 0) (sub inventory.managed_quantity quantity))

  -- What a sale of `quantity` may do to the row: where it is applied, the quantity was above zero
  -- and no more than was held, up to the dust, it is counted as sold, and the row holds what was
  -- held less what was sold, or is closed where that is dust.
  abbrev pub SoldFrom : Inventory F → F → Applied F → Type 0
  SoldFrom before quantity (refused e) =
      (le quantity (num 0 0) ≡ true) ⊎ (lt (add before.managed_quantity dust) quantity ≡ true)
  SoldFrom before quantity (applied after) =
      (le quantity (num 0 0) ≡ false)
      × (lt (add before.managed_quantity dust) quantity ≡ false)
      × (after.cumulative_sold_quantity ≡ add before.cumulative_sold_quantity quantity)
      × (after.cumulative_bought_quantity ≡ before.cumulative_bought_quantity)
      × (((le (sub before.managed_quantity quantity) dust ≡ false)
            × (after.managed_quantity ≡ sub before.managed_quantity quantity)
            × (after.average_entry_price ≡ before.average_entry_price))
          ⊎ (((le (sub before.managed_quantity quantity) dust ≡ true)
                ⊎ (lt (num 0 0) (sub before.managed_quantity quantity) ≡ false))
              × (after.managed_quantity ≡ num 0 0)
              × (after.average_entry_price ≡ none)))

  -- A sale is refused only for a quantity that is not above zero or is more than is held, up to the
  -- dust of 1e-12. One that is applied counts its quantity as sold, and the row then holds what was
  -- held less the quantity sold, at the old entry price; or, where that is dust or not above zero,
  -- exactly zero and no entry price. The dust is not below zero.
  pub apply_managed_fill-SoldFrom :
      (inventory : Inventory F) (quantity : F) (price : Option F)
      → le (num 0 0) dust ≡ true
      → SoldFrom inventory quantity (apply_managed_fill inventory (some sell) quantity price)
  unfolding apply_managed_fill
  apply_managed_fill-SoldFrom inventory quantity price h = ground arith
