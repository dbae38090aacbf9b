-- ===== src/Bybit/Submit.antt =====
-- `place_test_spot_market_order` of app/brokers/bybit_private.py: the last checks before an order
-- is posted to the exchange.
pub mod Outcome
use atlas_markets.Base.{
  ◌⊎◌, ◌≡◌, ◌++◌, ℕ, suc, zero, ◌==◌, ◌&&◌, [], ◌∷◌, refl, Bool, true, false, not, Option, none,
  some, List, arith, if◌then◌else◌, Bool-cases, Option-cases, inl, inr, take,
}
use atlas_markets.Base.Text.{Text, codes, text_eq, text_eq→eq, mem_text}
use atlas_markets.Base.Float.{Float}
use atlas_markets.Guard.Symbols.{is_empty, canonical_symbol, OrderRow, pending_order_symbols}
use atlas_markets.Bybit.Inventory.{Side}
use atlas_markets.Bybit.Slots.{
  Decimals, LotSize, Normalized, quantity, rejected, normalize_spot_qty,
}

-- `requested` is the quantity that the caller asked for, `qty` the one that is sent.
pub record Post (F D : Type 0) : Type 0 where
  pub symbol : Text
  pub side : Side
  pub requested : F
  pub qty : D
  pub link : Text

-- A refusal before the POST, or the order with the exchange's order id; no id where the POST
-- itself raised, so that the order may or may not stand.
pub data Placed (F D : Type 0) : Type 0 where
  not_posted : Placed F D
  posted : Post F D → Option Text → Placed F D

pub Placed-cases :
    {F D : Type 0} (p : Placed F D)
    → (p ≡ not_posted)
      ⊎ ((post : Post F D) × (p ≡ posted post none))
      ⊎ ((post : Post F D) × (id : Text) × (p ≡ posted post (some id)))
Placed-cases not_posted = inl refl
Placed-cases (posted post none) = inr (inl (post, refl))
Placed-cases (posted post (some id)) = inr (inr (post, id, refl))

-- `s.rstrip(c)` for one character
unfoldable pub rstrip_char : ℕ → Text → Text
rstrip_char c [] = []
rstrip_char c (d ∷ s) =
    let rest = rstrip_char c s in if is_empty rest && (d == c) then [] else d ∷ rest

abbrev pub testnet_url : Text
testnet_url = codes "https://api-testnet.bybit.com"

abbrev pub demo_url : Text
demo_url = codes "https://api-demo.bybit.com"

-- `base_url.rstrip("/") in {...}`
unfoldable pub is_test_url : Text → Bool
is_test_url url = mem_text (rstrip_char b'/' url) (testnet_url ∷ demo_url ∷ [])

-- The reservation is granted by another object, the execution guard: `free` says what it answered.
-- What the exchange answers while an order is placed; `none` where a call raises.
pub record Venue (F D : Type 0) : Type 0 where
  pub base_url : Text
  pub free : Bool  -- `reserve_execution` grants the slot
  pub open_orders : Option (List (OrderRow F))
  pub lot : Text → Option (LotSize F D)
  pub answer : Option Text

module _ {F D : Type 0} ⦃fl : Float F⦄ ⦃dl : Float D⦄ (dec : Decimals F D) where
  pub post_of : Text → Side → F → Text → Normalized D → Option (Post F D)
  post_of symbol side qty link (quantity q) =
      some (record { symbol = symbol; side = side; requested = qty; qty = q; link = take 36 link })
  post_of symbol side qty link (rejected e) = none

  -- The order that passes the checks made under the reservation.
  pub order_to_post : Venue F D → Text → Side → F → Text → Option (Post F D)
  unfolding post_of
  order_to_post venue symbol side qty link = elim venue.open_orders [
    | none ↦ none
    | some orders ↦
        if mem_text symbol (pending_order_symbols orders) then none else elim (venue.lot symbol) [
          | none ↦ none
          | some lot ↦
              post_of symbol side qty link (normalize_spot_qty dec qty lot.step lot.minimum)
        ]
  ]

  -- `blocked` is the result of `before_submit()`.
  unfoldable pub place_test_spot_market_order :
      Venue F D → Bool → Text → Side → F → Text → Placed F D
  unfolding order_to_post
  place_test_spot_market_order venue blocked text side qty link =
      let symbol = canonical_symbol text in
      if not (is_test_url venue.base_url)
      then not_posted
      else if not venue.free
      then not_posted
      else elim (order_to_post venue symbol side qty link) [
        | none ↦ not_posted
        | some post ↦ if blocked then not_posted else posted post venue.answer
      ]

  -- What the checks made under the reservation say of the order.
  pub record IsChecked (venue : Venue F D) (symbol : Text) (side : Side) (qty : F) (post : Post F D)
      : Type 0 where
    pub same_symbol : post.symbol ≡ symbol
    pub same_side : post.side ≡ side
    pub same_quantity : post.requested ≡ qty
    pub no_open_order :
        (orders : List (OrderRow F)) × (venue.open_orders ≡ some orders)
        × (mem_text symbol (pending_order_symbols orders) ≡ false)
    pub lot_size :
        (lot : LotSize F D) × (venue.lot symbol ≡ some lot)
        × (normalize_spot_qty dec qty lot.step lot.minimum ≡ quantity post.qty)

  post_of-eq :
      (symbol : Text) (side : Side) (qty : F) (link : Text) (n : Normalized D) {post : Post F D}
      → post_of symbol side qty link n ≡ some post
      → (post.symbol ≡ symbol)
        × (post.side ≡ side)
        × (post.requested ≡ qty)
        × (n ≡ quantity post.qty)
  unfolding post_of
  post_of-eq symbol side qty link (quantity q) h = ground arith
  post_of-eq symbol side qty link (rejected e) h = cc

  order_to_post-IsChecked :
      (venue : Venue F D) (symbol : Text) (side : Side) (qty : F) (link : Text) {post : Post F D}
      → order_to_post venue symbol side qty link ≡ some post
      → IsChecked venue symbol side qty post
  unfolding order_to_post
  order_to_post-IsChecked venue symbol side qty link {post} h =
      elim (Option-cases venue.open_orders) [
        | inl failed ↦ ground arith
        | inr (orders, o) ↦ elim (Bool-cases (mem_text symbol (pending_order_symbols orders))) [
          | inl open_order ↦ ground arith
          | inr none_open ↦ elim (Option-cases (venue.lot symbol)) [
            | inl missing ↦ ground arith
            | inr (lot, l) ↦
                let n = normalize_spot_qty dec qty lot.step lot.minimum in
                let e : post_of symbol side qty link n ≡ some post = ground arith in
                let (a, b, c, d) = post_of-eq symbol side qty link n {post = post} e in
                record {
                  same_symbol = a;
                  same_side = b;
                  same_quantity = c;
                  no_open_order = (orders, o, none_open);
                  lot_size = (lot, l, d);
                }
          ]
        ]
      ]

  -- What an order that is posted rests on.
  pub place_test_spot_market_order-IsChecked :
      (venue : Venue F D) (blocked : Bool) (text : Text) (side : Side) (qty : F) (link : Text)
      {post : Post F D} {answer : Option Text}
      → place_test_spot_market_order venue blocked text side qty link ≡ posted post answer
      → (is_test_url venue.base_url ≡ true)
        × (venue.free ≡ true)
        × (blocked ≡ false)
        × IsChecked venue (canonical_symbol text) side qty post
  unfolding place_test_spot_market_order
  place_test_spot_market_order-IsChecked venue blocked text side qty link {post} {answer} h =
      let symbol = canonical_symbol text in
      elim (Option-cases (order_to_post venue symbol side qty link)) [
        | inl refused ↦ ground arith
        | inr (p, e) ↦
            let same : order_to_post venue symbol side qty link ≡ some post = ground arith in
            (
              ground arith,
              ground arith,
              ground arith,
              order_to_post-IsChecked venue symbol side qty link {post = post} same,
            )
      ]

  pub place_test_spot_market_order-answer :
      (venue : Venue F D) (blocked : Bool) (text : Text) (side : Side) (qty : F) (link : Text)
      {post : Post F D} {answer : Option Text}
      → place_test_spot_market_order venue blocked text side qty link ≡ posted post answer
      → answer ≡ venue.answer
  unfolding place_test_spot_market_order
  place_test_spot_market_order-answer venue blocked text side qty link {post} {answer} h =
      ground arith
