-- ===== src/Bybit/Submit/Outcome.antt =====
-- What `place_test_spot_market_order` does on every branch.
use atlas_markets.Base.{ℕ, ◌⊎◌, ◌≡◌, Bool, true, false, none, some, List, ◌++◌, replicate}
use atlas_markets.Base.Text.{Text, mem_text}
use atlas_markets.Base.Float.{Float}
use atlas_markets.Guard.Symbols.{OrderRow, pending_order_symbols}
use atlas_markets.Bybit.Inventory.{Side}
use atlas_markets.Bybit.Slots.{
  Decimals, LotSize, NormalizeError, rejected, normalize_spot_qty, IsNormalized,
}
use atlas_markets.Bybit.Submit.{Post, Placed, not_posted, posted, Venue, testnet_url, demo_url}

-- The address of the test net or of the demo trading, with any number of slashes at its end.
abbrev pub IsTestUrl : Text → Type 0
IsTestUrl url =
    (n : ℕ) × ((url ≡ testnet_url ++ replicate n b'/') ⊎ (url ≡ demo_url ++ replicate n b'/'))

module _ {F D : Type 0} ⦃fl : Float F⦄ ⦃dl : Float D⦄ (dec : Decimals F D) where
  -- What stands against an order.
  pub data Refusal (venue : Venue F D) (blocked : Bool) (symbol : Text) (qty : F) : Type 0 where
    foreign_url : (IsTestUrl venue.base_url → ⊥) → Refusal venue blocked symbol qty
    in_progress : venue.free ≡ false → Refusal venue blocked symbol qty
    orders_unread : venue.open_orders ≡ none → Refusal venue blocked symbol qty
    open_order :
        (orders : List (OrderRow F))
        → venue.open_orders ≡ some orders
        → mem_text symbol (pending_order_symbols orders) ≡ true
        → Refusal venue blocked symbol qty
    lot_missing : venue.lot symbol ≡ none → Refusal venue blocked symbol qty
    bad_quantity :
        (lot : LotSize F D) (e : NormalizeError)
        → venue.lot symbol ≡ some lot
        → normalize_spot_qty dec qty lot.step lot.minimum ≡ rejected e
        → Refusal venue blocked symbol qty
    late_block : blocked ≡ true → Refusal venue blocked symbol qty

  -- What an order that is posted satisfies.
  pub record IsAllowed (venue : Venue F D) (blocked : Bool) (symbol : Text) (side : Side) (qty : F)
      (post : Post F D) : Type 0 where
    url : IsTestUrl venue.base_url
    reserved : venue.free ≡ true
    not_blocked : blocked ≡ false
    same_symbol : post.symbol ≡ symbol
    same_side : post.side ≡ side
    no_open_order :
        (orders : List (OrderRow F)) × (venue.open_orders ≡ some orders)
        × (mem_text symbol (pending_order_symbols orders) ≡ false)
    size :
        (lot : LotSize F D) × (venue.lot symbol ≡ some lot)
        × IsNormalized dec qty lot.minimum post.qty

  -- An order is posted, or there is one of the named reasons against it.
  pub data Outcome (venue : Venue F D) (blocked : Bool) (symbol : Text) (side : Side) (qty : F)
      : Placed F D → Type 0 where
    refuses : Refusal venue blocked symbol qty → Outcome venue blocked symbol side qty not_posted
    posts :
        (post : Post F D)
        → IsAllowed venue blocked symbol side qty post
        → Outcome venue blocked symbol side qty (posted post venue.answer)
