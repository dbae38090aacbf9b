-- ===== src/Automation/Entry/Sound.antt =====
-- What an order that `_execute_ibkr` posts has passed.
use atlas_markets.Base.{
  ℕ, ◌≡◌, refl, sym, inl, inr, arith, Option-cases, Bool-cases, Bool, true, false, not, ◌&&◌, ◌||◌,
  Option, none, some, List,
}
use atlas_markets.Base.Text.{Text, text_eq, upper}
use atlas_markets.Base.Float.{Float, number}
use atlas_markets.Rows.{Profile}
use atlas_markets.Ibkr.Shares.{Shares, ibkr_quantity_is_fractional, normalize_ibkr_shares}
use atlas_markets.Ibkr.Protection.{OrderRow, Position}
use atlas_markets.Automation.Route.{
  Reason, invalid_order_proposal, saved_protection_levels_invalid, fractional_api_unsupported,
  paper_bridge_required, protection_bridge_upgrade_required, symbol_already_has_position,
  symbol_already_has_open_order, broker_whatif_rejected, Config, Verdict, cleared, blocked, raised,
  entry_authorization_blocker,
}
use atlas_markets.Automation.Entry.{
  Settings, Item, Broker, Moments, Order, Outcome, Stage, pass, stop, ◌>>=◌, unless, or_raise,
  buy_side, item_symbol, find_route, is_side, levels_valid, check_proposal,
}
use atlas_markets.Automation.Entry.Checks.{check_broker, check_market}
use atlas_markets.Automation.Route.{IsAuthorized, config_by_id, entry_authorization_blocker-cleared}
use atlas_markets.Automation.Entry.Checks.{holds, has_open_order, protection_checked}
use atlas_markets.Automation.Entry.Place.{
  before_post, place_checked, place_order, placed_outcome, clear, outcome, prepare, execute_ibkr,
}

and-right : (a b : Bool) → a && b ≡ true → b ≡ true
and-right a b h = ground arith

pub not-true : (b : Bool) → not b ≡ true → b ≡ false
not-true true h = cc
not-true false h = refl

pub bind-pass :
    {F A B : Type 0} (s : Stage F A) (f : A → Stage F B) {b : B}
    → s >>= f ≡ pass b
    → (a : A) × (s ≡ pass a) × (f a ≡ pass b)
bind-pass (pass a) f h = (a, refl, h)
bind-pass (stop status reason) f h = cc

pub unless-true :
    {F : Type 0} (ok : Bool) (reason : Reason) {u : Unit {0}}
    → unless {F = F} ok reason ≡ pass u
    → ok ≡ true
unless-true true reason h = refl
unless-true false reason h = cc

pub or_raise-some : {F A : Type 0} (o : Option A) {a : A} → or_raise {F = F} o ≡ pass a → o ≡ some a
or_raise-some none h = cc
or_raise-some (some b) h = ground arith

clear-cleared :
    {F A : Type 0} (v : Verdict) (a : A) {b : A}
    → clear {F = F} v a ≡ pass b
    → (v ≡ cleared) × (a ≡ b)
clear-cleared cleared a h = (refl, ground arith)
clear-cleared (blocked reason) a h = cc
clear-cleared raised a h = cc

outcome-post :
    {F A : Type 0} (s : Stage F A) (f : A → Outcome F) {order : Order F}
    → (outcome s f).post ≡ some order
    → (a : A) × (s ≡ pass a) × ((f a).post ≡ some order)
outcome-post (pass a) f h = (a, refl, h)
outcome-post (stop status reason) f h = cc

module _ {F D : Type 0} ⦃fl : Float F⦄ ⦃dl : Float D⦄ (decimals : Shares F D) where
  open fl use {num, lt}

  check_proposal-sized :
      (settings : Settings) (item : Item F D) {q : F}
      → check_proposal decimals settings item ≡ pass q
      → (normalize_ibkr_shares decimals item.shares ≡ some q)
        × (is_side (upper item.side) ≡ true)
        × (lt (num 0 0) q ≡ true)
  unfolding check_proposal
  check_proposal-sized settings item {q} h =
      let (r, e0, h0) = bind-pass (or_raise (normalize_ibkr_shares decimals item.shares)) _ h in
      let (u1, e1, h1) =
        bind-pass (unless (is_side (upper item.side) && lt (num 0 0) r) invalid_order_proposal) _
          h0 in
      let sized =
        unless-true (is_side (upper item.side) && lt (num 0 0) r) invalid_order_proposal e1 in
      let (u2, e2, h2) =
        bind-pass
          (unless (not settings.native_protection || levels_valid decimals (upper item.side) item)
            saved_protection_levels_invalid)
          _ h1 in
      let (u3, e3, h3) =
        bind-pass
          (unless (not (ibkr_quantity_is_fractional decimals (number r)) || settings.fractional_api)
            fractional_api_unsupported)
          _ h2 in
      let same : r ≡ q = ground arith in
      (
        or_raise-some (normalize_ibkr_shares decimals item.shares) (rw same at e0),
        ground arith,
        rw same at (and-right (is_side (upper item.side)) (lt (num 0 0) r) sized),
      )

  check_broker-flat :
      (settings : Settings) (broker : Broker F) (symbol : Text) {account : Option Text}
      → check_broker settings broker symbol ≡ pass account
      → (broker.account ≡ some account)
        × ((rows : List (Position F)) × (broker.positions ≡ some rows)
            × (holds symbol rows ≡ some false))
        × ((rows : List (OrderRow F)) × (broker.orders ≡ some rows)
            × (has_open_order symbol rows ≡ false))
  unfolding check_broker
  check_broker-flat settings broker symbol {account} h =
      let (a, ea, h0) = bind-pass (or_raise broker.account) _ h in
      let (health, eh, h1) = bind-pass (or_raise broker.health) _ h0 in
      let (u2, e2, h2) =
        bind-pass (unless (health.connected && health.simulation) paper_bridge_required) _ h1 in
      let (u3, e3, h3) =
        bind-pass
          (unless (not settings.native_protection || health.protection)
            protection_bridge_upgrade_required)
          _ h2 in
      let (positions, ep, h4) = bind-pass (or_raise broker.positions) _ h3 in
      let (held, eheld, h5) = bind-pass (or_raise (holds symbol positions)) _ h4 in
      let (u6, e6, h6) = bind-pass (unless (not held) symbol_already_has_position) _ h5 in
      let (orders, eo, h7) = bind-pass (or_raise broker.orders) _ h6 in
      let (u8, e8, h8) = bind-pass (protection_checked settings a orders positions) _ h7 in
      let (u9, e9, h9) =
        bind-pass (unless (not (has_open_order symbol orders)) symbol_already_has_open_order) _
          h8 in
      let unheld = not-true held (unless-true (not held) symbol_already_has_position e6) in
      let same : a ≡ account = ground arith in
      (
        or_raise-some broker.account (rw same at ea),
        (
          positions,
          or_raise-some broker.positions ep,
          or_raise-some (holds symbol positions) (rw unheld at eheld),
        ),
        (
          orders,
          or_raise-some broker.orders eo,
          not-true (has_open_order symbol orders)
              (unless-true (not (has_open_order symbol orders)) symbol_already_has_open_order e9),
        ),
      )

  -- An entry order at a route of the user: its quantity is the normalized one and above zero, the
  -- broker shows no position and no open order of its symbol, the what-if order is accepted, and
  -- the database clears the entry at both checks.
  pub record IsEntry (moments : Moments) (broker : Broker F) (user : ℕ) (item : Item F D)
      (order : Order F) : Type 0 where
    pub config : Config
    pub profile : Profile
    pub route : find_route moments.start user item ≡ pass (config, profile)
    pub symbol : order.symbol ≡ item_symbol item
    pub side : (order.side ≡ upper item.side) × (is_side (upper item.side) ≡ true)
    pub quantity :
        (normalize_ibkr_shares decimals item.shares ≡ some order.quantity)
        × (lt (num 0 0) order.quantity ≡ true)
    pub account : broker.account ≡ some order.account
    pub flat :
        (rows : List (Position F)) × (broker.positions ≡ some rows)
        × (holds order.symbol rows ≡ some false)
    pub idle :
        (rows : List (OrderRow F)) × (broker.orders ≡ some rows)
        × (has_open_order order.symbol rows ≡ false)
    pub what_if : broker.what_if ≡ some true
    pub checked : entry_authorization_blocker moments.check profile.id config.id ≡ cleared

  prepare-IsEntry :
      (settings : Settings) (moments : Moments) (broker : Broker F) (user : ℕ) (item : Item F D)
      (ready : Order F × Config × Profile)
      → prepare decimals settings moments broker user item ≡ pass ready
      → (e : IsEntry moments broker user item ready.0) × (e.config ≡ ready.1)
        × (e.profile ≡ ready.2)
  unfolding prepare
  prepare-IsEntry settings moments broker user item ready h =
      let ((c, p), er, h0) = bind-pass (find_route moments.start user item) _ h in
      let (q, eq, h1) = bind-pass (check_proposal decimals settings item) _ h0 in
      let (a, ea, h2) = bind-pass (check_broker settings broker (item_symbol item)) _ h1 in
      let (u3, e3, h3) =
        bind-pass
          (check_market settings broker c p item.timeframe (text_eq (upper item.side) buy_side)) _
          h2 in
      let (w, ew, h4) = bind-pass (or_raise broker.what_if) _ h3 in
      let (u5, e5, h5) = bind-pass (unless w broker_whatif_rejected) _ h4 in
      let (check, same) =
        clear-cleared (entry_authorization_blocker moments.check p.id c.id)
          (
            record { symbol = item_symbol item; side = upper item.side; quantity = q; account = a },
            c,
            p,
          )
          h5 in
      let (normal, side, above) = check_proposal-sized settings item eq in
      let (account, flat, idle) = check_broker-flat settings broker (item_symbol item) ea in
      let what_if = or_raise-some broker.what_if ew in
      let yes = unless-true w broker_whatif_rejected e5 in
      rw (sym same) (
        record {
          config = c;
          profile = p;
          route = er;
          symbol = refl;
          side = (refl, side);
          quantity = (normal, above);
          account = account;
          flat = flat;
          idle = idle;
          what_if = rw yes at what_if;
          checked = check;
        },
        refl,
        refl,
      )

  posted-cleared :
      (broker : Broker F) (order : Order F) (v : Verdict) {post : Order F}
      → (placed_outcome broker order (before_post v broker.answer)).post ≡ some post
      → (v ≡ cleared) × (order ≡ post)
  unfolding placed_outcome
  posted-cleared broker order cleared {post} h = elim (Option-cases broker.answer) [
    | inl lost ↦ ground arith
    | inr (a, e) ↦ ground arith
  ]
  posted-cleared broker order (blocked reason) h = cc
  posted-cleared broker order raised h = cc

  placed-posted :
      (broker : Broker F) (order : Order F) (v : Verdict) {post : Order F}
      → (placed_outcome broker order (place_order broker order.symbol v)).post ≡ some post
      → (place_checked broker order.symbol ≡ true) × (v ≡ cleared) × (order ≡ post)
  unfolding placed_outcome place_order
  placed-posted broker order v {post} h = elim (Bool-cases (place_checked broker order.symbol)) [
    | inl ok ↦
        let (clear_v, same) = posted-cleared broker order v (rw ok at h) in (ok, clear_v, same)
    | inr refused_here ↦ ground arith
  ]

  -- Whatever the broker and other workers do, an order that is posted is an entry: it has a route
  -- of the user, the normalized quantity, no position and no open order of its symbol at either
  -- look at the broker, an accepted what-if order, and a database that clears the entry at the
  -- check before the reservation and again right before the POST.
  pub execute_ibkr-IsEntry :
      (settings : Settings) (moments : Moments) (broker : Broker F) (user : ℕ) (item : Item F D)
      {order : Order F}
      → (execute_ibkr decimals settings moments broker user item).post ≡ some order
      → (e : IsEntry moments broker user item order) × (place_checked broker order.symbol ≡ true)
        × (profile : Profile) × (config : Config) × (moments.submit.tables.profiles e.profile.id
            ≡ some profile)
        × (config_by_id e.config.id moments.submit.configs ≡ some config)
        × IsAuthorized moments.submit profile config
  unfolding execute_ibkr
  execute_ibkr-IsEntry settings moments broker user item {order} h =
      let (ready, er, h0) = outcome-post (prepare decimals settings moments broker user item) _ h in
      let (e, c, p) = prepare-IsEntry settings moments broker user item ready er in
      let (checked, clear_v, same) =
        placed-posted broker ready.0
          (entry_authorization_blocker moments.submit ready.2.id ready.1.id) h0 in
      let now_clear : entry_authorization_blocker moments.submit e.profile.id e.config.id
          ≡ cleared =
        rw (c, p) clear_v in
      let (profile, config, hp, hc, auth) =
        entry_authorization_blocker-cleared moments.submit e.profile.id e.config.id now_clear in
      rw (sym same) (e, checked, profile, config, hp, hc, auth)
