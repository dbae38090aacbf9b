-- ===== src/Bybit/Execute/Sales.antt =====
-- How much a sale may sell.
use atlas_markets.Base.{if◌then◌else◌}
use atlas_markets.Base.Text.{Text}
use atlas_markets.Base.Float.{Float, fmin}
use atlas_markets.Bybit.Inventory.{Inventory, dust}
use atlas_markets.Bybit.Slots.{Decimals}
use atlas_markets.Bybit.Attempt.{World}

module _ {F D : Type 0} ⦃fl : Float F⦄ ⦃dl : Float D⦄ (dec : Decimals F D) (world : World F D) where
  open fl use {num, le, lt, add, is_finite}

  -- The size of the order that a sale sends.
  sale_size : F → F → F → F
  sale_size asked managed q = fmin (fmin asked (if lt (add q dust) managed then q else managed)) q
