-- ===== src/Bybit/Execute/Shape.antt =====
-- How a call of `execute_managed_spot_order` ends: before the POST, or through `submit`.
use atlas_markets.Base.{
  ℕ, ◌≡◌, refl, Bool, true, false, not, ◌||◌, Option, none, some, List, ◌⊎◌, inl, inr, Bool-cases,
  Option-cases, arith, if◌then◌else◌,
}
use atlas_markets.Base.Text.{Text}
use atlas_markets.Base.Float.{Float, fmin}
use atlas_markets.Rows.{Action, block, Profile}
use atlas_markets.Bybit.Inventory.{Side, buy, sell, side_of, Inventory, dust}
use atlas_markets.Bybit.Fills.{Coin, base_coin, wallet_coin_quantity}
use atlas_markets.Bybit.Slots.{Decimals}
use atlas_markets.Bybit.Reconcile.{has_client}
use atlas_markets.Bybit.Attempt.{
  Account, World, Run, Report, Request, Sizes, lowered, managed_of, static_blocker, pending_action,
  request_of,
}
use atlas_markets.Bybit.Execute.{
  reconciled_actions, buy_is_blocked, submit, sell_against, sell_phase, buy_phase,
  after_reconciliation, execute_managed_spot_order,
}

module _ {F D : Type 0} ⦃fl : Float F⦄ ⦃dl : Float D⦄ (dec : Decimals F D) (world : World F D) where
  open fl use {num, le, lt, add}

  abbrev pub IsBlock : Option (Report F) → Type 0
  IsBlock none = Unit
  IsBlock (some rep) = rep.status ≡ block

  -- The inventory may have been made to follow the wallet, and is else the one of the call.
  abbrev pub FollowsWallet : Option (Inventory F) → Option (Inventory F) → Type 0
  FollowsWallet before after =
      (after ≡ before)
      ⊎ ((inventory : Inventory F) × (coins : List (Coin F)) × (coin : Text) × (before
            ≡ some inventory)
          × ((after
                ≡ some (record inventory { managed_quantity = wallet_coin_quantity coins coin }))
              ⊎ (after
                  ≡ some (record inventory {
                    managed_quantity = num 0 0;
                    average_entry_price = none;
                  }))))

  -- Nothing was posted: the call raised or reports a block.
  pub record IsStopped (account : Account F) (run : Run F D) : Type 0 where
    pub no_post : run.post ≡ none
    pub blocked : IsBlock run.report
    pub inventory : FollowsWallet account.inventory run.account.inventory

  -- What a sale takes from the managed row and the wallet: where the wallet holds less than is
  -- managed, the row follows the wallet first.
  pub record IsSale (r : Request F) (account : Account F) (sizes : Sizes F) (before : Account F)
      : Type 0 where
    pub inventory : Inventory F
    pub coins : List (Coin F)
    pub coin : Text
    pub held : account.inventory ≡ some inventory
    pub wallet : world.wallet ≡ some coins
    pub base : base_coin r.symbol ≡ some coin
    pub size :
        sizes.quantity
        ≡ fmin (fmin r.quantity sizes.managed_before) (wallet_coin_quantity coins coin)
    pub follows :
        ((lt (add (wallet_coin_quantity coins coin) dust) inventory.managed_quantity ≡ true)
          × (sizes.managed_before ≡ wallet_coin_quantity coins coin)
          × (before.inventory
              ≡ some (record inventory { managed_quantity = wallet_coin_quantity coins coin })))
        ⊎ ((lt (add (wallet_coin_quantity coins coin) dust) inventory.managed_quantity ≡ false)
            × (sizes.managed_before ≡ inventory.managed_quantity)
            × (before.inventory ≡ some inventory))

  -- The sizes and the row with which an order goes to the exchange.
  abbrev pub IsPrepared : Request F → Side → Account F → Sizes F → Account F → Type 0
  IsPrepared r buy account sizes before =
      (sizes.quantity ≡ r.quantity)
      × (sizes.managed_before ≡ managed_of account.inventory)
      × (before.inventory ≡ account.inventory)
  IsPrepared r sell account sizes before = IsSale r account sizes before

  pub record IsSubmitted (r : Request F) (side : Side) (account : Account F) (run : Run F D)
      : Type 0 where
    pub sizes : Sizes F
    pub before : Account F
    pub by_submit : run ≡ submit dec world r side sizes before
    pub actions : before.actions ≡ account.actions
    pub inventory : FollowsWallet account.inventory before.inventory
    pub prepared : IsPrepared r side account sizes before

  abbrev pub Ends : Request F → Side → Account F → Run F D → Type 0
  Ends r side account run = IsStopped account run ⊎ IsSubmitted r side account run

  sell_against-Ends :
      (r : Request F) (inventory : Inventory F) (account : Account F) (coins : List (Coin F))
      (coin : Text)
      → account.inventory ≡ some inventory
      → world.wallet ≡ some coins
      → base_coin r.symbol ≡ some coin
      → Ends r sell account
          (sell_against dec world r inventory account (wallet_coin_quantity coins coin))
  unfolding sell_against
  sell_against-Ends r inventory account coins coin held wallet base =
      let q = wallet_coin_quantity coins coin in
      let short = lt (add q dust) inventory.managed_quantity in
      let managed = if short then q else inventory.managed_quantity in
      let size = fmin (fmin r.quantity managed) q in
      elim (Bool-cases (le q dust)) [
        | inl empty ↦ rw empty (
            inl (record {
              no_post = refl;
              blocked = refl;
              inventory = inr (inventory, coins, coin, held, inr refl);
            }))
        | inr filled ↦ elim (Bool-cases short) [
          | inl less ↦ elim (Bool-cases (le size dust)) [
            | inl small ↦ inl (record {
              no_post = ground arith;
              blocked = ground arith;
              inventory = inr (inventory, coins, coin, held, inl (ground arith));
            })
            | inr enough ↦ inr (record {
              sizes = record { quantity = size; managed_before = managed };
              before = lowered account inventory q;
              by_submit = ground arith;
              actions = refl;
              inventory = inr (inventory, coins, coin, held, inl refl);
              prepared = record {
                inventory = inventory;
                coins = coins;
                coin = coin;
                held = held;
                wallet = wallet;
                base = base;
                size = refl;
                follows = inl (less, ground arith, refl);
              };
            })
          ]
          | inr covered ↦ elim (Bool-cases (le size dust)) [
            | inl small ↦ inl (record {
              no_post = ground arith;
              blocked = ground arith;
              inventory = inl (ground arith);
            })
            | inr enough ↦ inr (record {
              sizes = record { quantity = size; managed_before = managed };
              before = account;
              by_submit = ground arith;
              actions = refl;
              inventory = inl refl;
              prepared = record {
                inventory = inventory;
                coins = coins;
                coin = coin;
                held = held;
                wallet = wallet;
                base = base;
                size = refl;
                follows = inr (covered, ground arith, held);
              };
            })
          ]
        ]
      ]

  stopped_here :
      (r : Request F) (side : Side) (account : Account F) (run : Run F D)
      → run.post ≡ none
      → IsBlock run.report
      → run.account ≡ account
      → Ends r side account run
  stopped_here r side account run p b a =
      inl (record { no_post = p; blocked = b; inventory = inl (ground arith) })

  abbrev sale_refused : Request F → Inventory F → Bool
  sale_refused r inventory =
      le inventory.managed_quantity dust
      || lt (add inventory.managed_quantity dust) r.quantity
      || not (has_client r.profile)

  sell_phase-Ends :
      (r : Request F) (account : Account F) → Ends r sell account (sell_phase dec world r account)
  unfolding sell_phase
  sell_phase-Ends r account = elim (Option-cases account.inventory) [
    | inl nothing ↦ stopped_here r sell account _ (ground arith) (ground arith) (ground arith)
    | inr (inventory, held) ↦ elim (Bool-cases (sale_refused r inventory)) [
      | inl refused ↦ stopped_here r sell account _ (ground arith) (ground arith) (ground arith)
      | inr allowed ↦ elim (Option-cases world.wallet) [
        | inl failed ↦ stopped_here r sell account _ (ground arith) (ground arith) (ground arith)
        | inr (coins, w) ↦ elim (Option-cases (base_coin r.symbol)) [
          | inl unsupported ↦
              stopped_here r sell account _ (ground arith) (ground arith) (ground arith)
          | inr (coin, b) ↦
              let same : sell_phase dec world r account
                  ≡ sell_against dec world r inventory account (wallet_coin_quantity coins coin) =
                ground arith in
              rw same (sell_against-Ends r inventory account coins coin held w b)
        ]
      ]
    ]
  ]

  buy_phase-Ends :
      (r : Request F) (account : Account F) → Ends r buy account (buy_phase dec world r account)
  unfolding buy_phase
  buy_phase-Ends r account =
      let before = managed_of account.inventory in
      elim (Bool-cases (buy_is_blocked dec world r account.inventory before)) [
        | inl blocked ↦ stopped_here r buy account _ (ground arith) (ground arith) (ground arith)
        | inr open_slot ↦ inr (record {
          sizes = record { quantity = r.quantity; managed_before = before };
          before = account;
          by_submit = ground arith;
          actions = refl;
          inventory = inl refl;
          prepared = (refl, refl, refl);
        })
      ]

  -- How a call that reached the actions `actions` ends.
  abbrev EndsSomehow : Request F → Option Side → Account F → Run F D → Type 0
  EndsSomehow r side account run =
      IsStopped account run
      ⊎ ((s : Side) × (side ≡ some s)
          × (pending_action r account.actions ≡ none)
          × IsSubmitted r s account run)

  of_side :
      (r : Request F) (s : Side) (account : Account F) (run : Run F D)
      → pending_action r account.actions ≡ none
      → Ends r s account run
      → EndsSomehow r (some s) account run
  of_side r s account run e (inl stopped) = inl stopped
  of_side r s account run e (inr sent) = inr (s, refl, e, sent)

  after_reconciliation-Ends :
      (r : Request F) (side : Option Side) (account : Account F)
      → EndsSomehow r side account (after_reconciliation dec world r side account)
  unfolding after_reconciliation
  after_reconciliation-Ends r side account =
      elim (Option-cases (pending_action r account.actions)) [
        | inr (pending, e) ↦ inl (record {
          no_post = ground arith;
          blocked = ground arith;
          inventory = inl (ground arith);
        })
        | inl clear ↦ go side clear
      ]
    where
      go :
          (s : Option Side)
          → pending_action r account.actions ≡ none
          → EndsSomehow r s account (after_reconciliation dec world r s account)
      go none clear = inl (record {
        no_post = ground arith;
        blocked = ground arith;
        inventory = inl (ground arith);
      })
      go (some buy) clear =
          let same : after_reconciliation dec world r (some buy) account
              ≡ buy_phase dec world r account =
            ground arith in
          rw same
            (of_side r buy account (buy_phase dec world r account) clear (buy_phase-Ends r account))
      go (some sell) clear =
          let same : after_reconciliation dec world r (some sell) account
              ≡ sell_phase dec world r account =
            ground arith in
          rw same (
            of_side r sell account (sell_phase dec world r account) clear
              (sell_phase-Ends r account))

  -- A call either stops before the POST, with a block or an exception, or its end is that of
  -- `submit`, for the side of the call, with nothing unresolved.
  pub record IsSent (r : Request F) (side : Option Side) (account : Account F) (run : Run F D)
      : Type 0 where
    pub actions : List Action
    pub reconciled : reconciled_actions dec world r account.actions ≡ some actions
    pub clear : pending_action r actions ≡ none
    pub chosen : Side
    pub of_call : side ≡ some chosen
    pub sent : IsSubmitted r chosen (record account { actions = actions }) run

  IsSent-of :
      (r : Request F) (side : Option Side) (account : Account F) (actions : List Action)
      {run : Run F D}
      → reconciled_actions dec world r account.actions ≡ some actions
      → EndsSomehow r side (record account { actions = actions }) run
      → IsStopped account run ⊎ IsSent r side account run
  IsSent-of r side account actions e (inl s) =
      inl (record { no_post = s.no_post; blocked = s.blocked; inventory = s.inventory })
  IsSent-of r side account actions e (inr (s, chosen, clear, sent)) = inr (record {
    actions = actions;
    reconciled = e;
    clear = clear;
    chosen = s;
    of_call = chosen;
    sent = sent;
  })

  pub execute_managed_spot_order-ends :
      (profile : Profile) (user : ℕ) (symbol side : Text) (quantity : F) (account : Account F)
      → let run = execute_managed_spot_order dec world profile user symbol side quantity account in
        IsStopped account run
        ⊎ IsSent (request_of profile user symbol quantity) (side_of side) account run
  unfolding execute_managed_spot_order
  execute_managed_spot_order-ends profile user symbol side quantity account =
      let r = request_of profile user symbol quantity in
      let run = execute_managed_spot_order dec world profile user symbol side quantity account in
      elim (Option-cases (static_blocker profile (side_of side) quantity)) [
        | inr (reason, e) ↦ inl (record {
          no_post = ground arith;
          blocked = ground arith;
          inventory = inl (ground arith);
        })
        | inl clear ↦ elim (Option-cases (reconciled_actions dec world r account.actions)) [
          | inl failed ↦ inl (record {
            no_post = ground arith;
            blocked = ground arith;
            inventory = inl (ground arith);
          })
          | inr (actions, e) ↦
              let now = record account { actions = actions } in
              let same : run ≡ after_reconciliation dec world r (side_of side) now = ground arith in
              rw same (
                IsSent-of r (side_of side) account actions e
                  (after_reconciliation-Ends r (side_of side) now))
        ]
      ]
