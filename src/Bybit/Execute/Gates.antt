-- ===== src/Bybit/Execute/Gates.antt =====
-- When `execute_managed_spot_order` posts an order at all.
use atlas_markets.Base.{
  ℕ, ◌≡◌, refl, sym, ap, ◌∙◌, true, false, Option, none, some, List, inl, inr, is_some, Bool-cases,
  Option-cases, arith, if◌then◌else◌,
}
use atlas_markets.Base.Text.{Text, mem_text, upper}
use atlas_markets.Base.Float.{Float, fmin}
use atlas_markets.Guard.Symbols.{canonical_symbol}
use atlas_markets.Rows.{Action, Profile, simulation_environments}
use atlas_markets.Access.Owner.{entry_owner_blocker}
use atlas_markets.Bybit.Inventory.{Side, buy, sell, side_of, Inventory, dust}
use atlas_markets.Bybit.Fills.{base_coin, Coin, wallet_coin_quantity}
use atlas_markets.Bybit.Slots.{Decimals, LotSize, Normalized, normalize_spot_qty}
use atlas_markets.Bybit.Reconcile.{has_client}
use atlas_markets.Bybit.Submit.{
  Post, Placed, not_posted, posted, place_test_spot_market_order, is_test_url, IsChecked,
  place_test_spot_market_order-IsChecked,
}
use atlas_markets.Bybit.Attempt.{
  Account, lowered, World, Request, Sizes, static_blocker, pending_action, managed_of, request_of,
}
use atlas_markets.Bybit.Execute.{
  reconciled_actions, buy_is_blocked, submit, sell_against, sell_phase, buy_phase,
  after_reconciliation, execute_managed_spot_order,
}

module _ {F : Type 0} ⦃fl : Float F⦄ where
  open fl use {num, le}

  -- The conditions on the profile and the arguments, from the checks at the start of the call.
  pub record IsReady (profile : Profile) (side : Option Side) (quantity : F) : Type 0 where
    pub simulation : mem_text (upper profile.environment) simulation_environments ≡ true
    pub certified : profile.execution_certified ≡ true
    pub buy_certified : profile.buy_passed ≡ true
    pub sell_certified : profile.sell_passed ≡ true
    pub enabled : profile.is_enabled ≡ true
    pub active : profile.is_active ≡ true
    pub connected : profile.connected ≡ true
    pub has_side : is_some side ≡ true
    pub not_empty : le quantity (num 0 0) ≡ false

  static_blocker-IsReady :
      (profile : Profile) (side : Option Side) (quantity : F)
      → static_blocker profile side quantity ≡ none
      → IsReady profile side quantity
  unfolding static_blocker
  static_blocker-IsReady profile side quantity h = ground arith

module _ {F D : Type 0} ⦃fl : Float F⦄ ⦃dl : Float D⦄ (dec : Decimals F D) (world : World F D) where
  open fl use {num, le, lt, add}

  -- What holds of an order that was posted for a request.
  pub record IsGated (r : Request F) (side : Side) (post : Post F D) : Type 0 where
    pub client : has_client r.profile ≡ true
    pub owner : entry_owner_blocker world.tables r.profile ≡ none
    pub test_url : is_test_url world.venue.base_url ≡ true
    pub slot_reserved : world.venue.free ≡ true
    pub symbol : post.symbol ≡ canonical_symbol r.symbol
    pub side_kept : post.side ≡ side
    pub lot_size :
        (lot : LotSize F D) × (world.venue.lot (canonical_symbol r.symbol) ≡ some lot)
        × (normalize_spot_qty dec post.requested lot.step lot.minimum
            ≡ Normalized.quantity post.qty)

  lot_kept :
      (r : Request F) {side : Side} (qty : F) (q post : Post F D)
      → IsChecked dec world.venue (canonical_symbol r.symbol) side qty q
      → q ≡ post
      → (lot : LotSize F D) × (world.venue.lot (canonical_symbol r.symbol) ≡ some lot)
        × (normalize_spot_qty dec post.requested lot.step lot.minimum
            ≡ Normalized.quantity post.qty)
  lot_kept r qty q post d same =
      let (lot, l, n) = d.lot_size in
      let asked = d.same_quantity in
      let here : normalize_spot_qty dec q.requested lot.step lot.minimum
          ≡ Normalized.quantity q.qty =
        rw asked n in
      (lot, l, rw same at here)

  IsGated-of :
      (r : Request F) (side : Side) (qty : F) (q post : Post F D)
      → is_test_url world.venue.base_url ≡ true
      → world.venue.free ≡ true
      → is_some (entry_owner_blocker world.tables r.profile) ≡ false
      → IsChecked dec world.venue (canonical_symbol r.symbol) side qty q
      → has_client r.profile ≡ true
      → q ≡ post
      → IsGated r side post × (post.requested ≡ qty)
  IsGated-of r side qty q post a b c d client same = (
    record {
      client = client;
      owner = ground arith;
      test_url = a;
      slot_reserved = b;
      symbol = ap (λ (p : Post F D). p.symbol) (sym same) ∙ d.same_symbol;
      side_kept = ap (λ (p : Post F D). p.side) (sym same) ∙ d.same_side;
      lot_size = lot_kept r qty q post d same;
    },
    ap (λ (p : Post F D). p.requested) (sym same) ∙ d.same_quantity,
  )

  pub submit-IsGated :
      (r : Request F) (side : Side) (z : Sizes F) (account : Account F) {post : Post F D}
      → (submit dec world r side z account).post ≡ some post
      → IsGated r side post × (post.requested ≡ z.quantity)
  unfolding submit
  submit-IsGated r side z account {post} h =
      let blocked = is_some (entry_owner_blocker world.tables r.profile) in
      let placed =
        place_test_spot_market_order dec world.venue blocked r.symbol side z.quantity world.link in
      elim (Bool-cases (has_client r.profile)) [
        | inr missing ↦ ground arith
        | inl client ↦ go placed refl client
      ]
    where
      go :
          (p : Placed F D)
          → place_test_spot_market_order dec world.venue
              (is_some (entry_owner_blocker world.tables r.profile))
              r.symbol
              side
              z.quantity
              world.link
            ≡ p
          → has_client r.profile ≡ true
          → IsGated r side post × (post.requested ≡ z.quantity)
      go not_posted e client = ground arith
      go (posted q none) e client =
          let same : q ≡ post = ground arith in
          let (a, b, c, d) =
            place_test_spot_market_order-IsChecked dec world.venue
              (is_some (entry_owner_blocker world.tables r.profile)) r.symbol side z.quantity
              world.link {post = q} {answer = none} e in
          IsGated-of r side z.quantity q post a b c d client same
      go (posted q (some id)) e client =
          let same : q ≡ post = ground arith in
          let (a, b, c, d) =
            place_test_spot_market_order-IsChecked dec world.venue
              (is_some (entry_owner_blocker world.tables r.profile)) r.symbol side z.quantity
              world.link {post = q} {answer = some id} e in
          IsGated-of r side z.quantity q post a b c d client same

  pub sell_against-IsGated :
      (r : Request F) (inventory : Inventory F) (account : Account F) (q : F) {post : Post F D}
      → (sell_against dec world r inventory account q).post ≡ some post
      → IsGated r sell post
  unfolding sell_against
  sell_against-IsGated r inventory account q {post} h =
      let short = lt (add q dust) inventory.managed_quantity in
      let managed = if short then q else inventory.managed_quantity in
      let after = if short then lowered account inventory q else account in
      let z : Sizes F = record {
        quantity = fmin (fmin r.quantity managed) q;
        managed_before = managed;
      } in
      ground (arith, submit-IsGated r sell z after {post = post})

  -- The sale behind an order that was posted by `sell_phase`.
  pub record SaleOf (r : Request F) (account : Account F) (post : Post F D) : Type 0 where
    pub inventory : Inventory F
    pub held : account.inventory ≡ some inventory
    pub coins : List (Coin F)
    pub wallet_read : world.wallet ≡ some coins
    pub coin : Text
    pub base : base_coin r.symbol ≡ some coin
    pub above_dust : le inventory.managed_quantity dust ≡ false
    pub not_more : lt (add inventory.managed_quantity dust) r.quantity ≡ false
    pub sale :
        (sell_against dec world r inventory account (wallet_coin_quantity coins coin)).post
        ≡ some post

  pub sell_phase-SaleOf :
      (r : Request F) (account : Account F) {post : Post F D}
      → (sell_phase dec world r account).post ≡ some post
      → SaleOf r account post
  unfolding sell_phase
  sell_phase-SaleOf r account {post} h = elim (Option-cases account.inventory) [
    | inl nothing ↦ ground arith
    | inr (inventory, held) ↦ elim (Option-cases world.wallet) [
      | inl failed ↦ ground arith
      | inr (coins, w) ↦ elim (Option-cases (base_coin r.symbol)) [
        | inl unsupported ↦ ground arith
        | inr (coin, b) ↦ record {
          inventory = inventory;
          held = held;
          coins = coins;
          wallet_read = w;
          coin = coin;
          base = b;
          above_dust = ground arith;
          not_more = ground arith;
          sale = ground arith;
        }
      ]
    ]
  ]

  sell_phase-IsGated :
      (r : Request F) (account : Account F) {post : Post F D}
      → (sell_phase dec world r account).post ≡ some post
      → IsGated r sell post
  sell_phase-IsGated r account {post} h =
      let s = sell_phase-SaleOf r account {post = post} h in
      sell_against-IsGated r s.inventory account (wallet_coin_quantity s.coins s.coin) {post = post}
        s.sale

  buy_phase-IsGated :
      (r : Request F) (account : Account F) {post : Post F D}
      → (buy_phase dec world r account).post ≡ some post
      → IsGated r buy post
        × (buy_is_blocked dec world r account.inventory (managed_of account.inventory) ≡ false)
        × (post.requested ≡ r.quantity)
  unfolding buy_phase
  buy_phase-IsGated r account {post} h =
      let before = managed_of account.inventory in
      let z : Sizes F = record { quantity = r.quantity; managed_before = before } in
      let open_slot : buy_is_blocked dec world r account.inventory before ≡ false = ground arith in
      let sent : (submit dec world r buy z account).post ≡ some post = ground arith in
      let (g, q) = submit-IsGated r buy z account {post = post} sent in (g, open_slot, q)

  -- With the actions reconciled, a posted order belongs to a side, and nothing is unresolved.
  abbrev pub Posted : Request F → Option Side → Account F → Post F D → Type 0
  Posted r none account post = ⊥
  Posted r (some side) account post =
      (pending_action r account.actions ≡ none) × IsGated r side post

  after_reconciliation-Posted :
      (r : Request F) (side : Option Side) (account : Account F) {post : Post F D}
      → (after_reconciliation dec world r side account).post ≡ some post
      → Posted r side account post
  unfolding after_reconciliation
  after_reconciliation-Posted r none account h = ground arith
  after_reconciliation-Posted r (some buy) account {post} h =
      (ground arith, (buy_phase-IsGated r account {post = post} (ground arith)).0)
  after_reconciliation-Posted r (some sell) account {post} h =
      (ground arith, sell_phase-IsGated r account {post = post} (ground arith))

  -- Whatever the exchange and the other workers do, an order is posted only for a TESTNET or DEMO
  -- profile that is certified in both directions and ready, with BUY or SELL and a quantity that
  -- is not zero or below, when no submission of the same user, profile and symbol is left
  -- unresolved by the reconciliation, and when the last checks before the POST pass: a client
  -- with credentials for the official test address, an active owner with an enabled profile, and
  -- the reserved execution slot. The order has the canonical symbol and the side of the call.
  pub execute_managed_spot_order-gates :
      (profile : Profile) (user : ℕ) (symbol side : Text) (quantity : F) (account : Account F)
      {post : Post F D}
      → (execute_managed_spot_order dec world profile user symbol side quantity account).post
        ≡ some post
      → let r = request_of profile user symbol quantity in
        IsReady profile (side_of side) quantity
        × ((actions : List Action) × (reconciled_actions dec world r account.actions ≡ some actions)
            × Posted r (side_of side) (record account { actions = actions }) post)
  unfolding execute_managed_spot_order
  execute_managed_spot_order-gates profile user symbol side quantity account {post} h =
      let r = request_of profile user symbol quantity in
      elim (Option-cases (static_blocker profile (side_of side) quantity)) [
        | inr (reason, e) ↦ ground arith
        | inl clear ↦ elim (Option-cases (reconciled_actions dec world r account.actions)) [
          | inl failed ↦ ground arith
          | inr (actions, e) ↦ (
            static_blocker-IsReady profile (side_of side) quantity clear,
            (
              actions,
              e,
              after_reconciliation-Posted r (side_of side) (record account { actions = actions })
                  {post = post} (ground arith),
            ),
          )
        ]
      ]
