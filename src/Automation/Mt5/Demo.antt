-- ===== src/Automation/Mt5/Demo.antt =====
-- What an order that `_execute_mt5` posts has passed.
use atlas_markets.Base.{
  ℕ, ◌≡◌, refl, sym, ap, ◌∙◌, Bool, true, false, not, ◌&&◌, ◌||◌, Option, none, some, List,
  if◌then◌else◌, inl, inr, arith, Bool-cases,
}
use atlas_markets.Base.Text.{Text, upper}
use atlas_markets.Base.Float.{Float, float_or_zero}
use atlas_markets.Rows.{Profile}
use atlas_markets.Access.Owner.{active_owner}
use atlas_markets.Guard.Symbols.{PositionRow, OrderRow}
use atlas_markets.Ibkr.Shares.{parsed}
use atlas_markets.Automation.Route.{
  account_owner_disabled, invalid_order_proposal, symbol_already_has_position,
  symbol_already_has_open_order, protection_required, mt5_demo_server_required,
  mt5_algo_trading_disabled, broker_preflight_rejected, World, Config,
}
use atlas_markets.Automation.Entry.{
  Item, Stage, pass, stop, unless, or_raise, item_symbol, is_side, find_route,
}
use atlas_markets.Automation.Entry.Sound.{bind-pass, unless-true, or_raise-some, not-true}
use atlas_markets.Automation.Mt5.{
  Proposal, Bridge, DemoOrder, Mt5Outcome, is_absent, is_done, trading_off, has_position, has_order,
  check_mt5_proposal, check_bridge, demo_checked, place_demo_order, mt5_outcome, prepare_mt5,
  execute_mt5,
}

module _ {F : Type 0} ⦃fl : Float F⦄ where
  open fl use {num, le}

  -- A bridge at which an order of the symbol may be placed: a demo server that allows trading, no
  -- position and no order of the symbol, and a check of the order that is done.
  pub record IsFree (bridge : Bridge F) (symbol : Text) : Type 0 where
    pub demo :
        (health : Bool × Option Bool) × (bridge.health ≡ some health)
        × (health.0 ≡ true)
        × (trading_off health.1 ≡ false)
    pub flat :
        (rows : List (PositionRow F)) × (bridge.positions ≡ some rows)
        × (has_position symbol rows ≡ some false)
    pub idle :
        (rows : List (OrderRow F)) × (bridge.orders ≡ some rows) × (has_order symbol rows ≡ false)
    pub accepted : (code : Option ℕ) × (bridge.retcode ≡ some code) × (is_done code ≡ true)

  check_bridge-IsFree :
      (bridge : Bridge F) (symbol : Text) {u : Unit {0}}
      → check_bridge bridge symbol ≡ pass u
      → IsFree bridge symbol
  unfolding check_bridge
  check_bridge-IsFree bridge symbol h0 =
      let (c, ec, h1) =
        bind-pass (or_raise (if bridge.configured then some (tt {0}) else none)) _ h0 in
      let (health, eh, h2) = bind-pass (or_raise bridge.health) _ h1 in
      let (u3, e3, h3) = bind-pass (unless health.0 mt5_demo_server_required) _ h2 in
      let (u4, e4, h4) =
        bind-pass (unless (not (trading_off health.1)) mt5_algo_trading_disabled) _ h3 in
      let (rows, ep, h5) = bind-pass (or_raise bridge.positions) _ h4 in
      let (held, eheld, h6) = bind-pass (or_raise (has_position symbol rows)) _ h5 in
      let (u7, e7, h7) = bind-pass (unless (not held) symbol_already_has_position) _ h6 in
      let (orders, eo, h8) = bind-pass (or_raise bridge.orders) _ h7 in
      let (u9, e9, h9) =
        bind-pass (unless (not (has_order symbol orders)) symbol_already_has_open_order) _ h8 in
      let (code, ecode, h10) = bind-pass (or_raise bridge.retcode) _ h9 in
      let unheld = not-true held (unless-true (not held) symbol_already_has_position e7) in
      record {
        demo = (
          health,
          or_raise-some bridge.health eh,
          unless-true health.0 mt5_demo_server_required e3,
          not-true (trading_off health.1)
              (unless-true (not (trading_off health.1)) mt5_algo_trading_disabled e4),
        );
        flat = (
          rows,
          or_raise-some bridge.positions ep,
          or_raise-some (has_position symbol rows) (rw unheld at eheld),
        );
        idle = (
          orders,
          or_raise-some bridge.orders eo,
          not-true (has_order symbol orders)
              (unless-true (not (has_order symbol orders)) symbol_already_has_open_order e9),
        );
        accepted = (
          code,
          or_raise-some bridge.retcode ecode,
          unless-true (is_done code) broker_preflight_rejected h10,
        );
      }

  pub record IsDemoOrder {D : Type 0} (start later : World) (bridge : Bridge F) (user : ℕ)
      (item : Item F D) (proposal : Proposal F) (order : DemoOrder F) : Type 0 where
    pub route :
        (config : Config) × (profile : Profile) × (find_route {F = F} {D = D} start user item
          ≡ pass (config, profile))
    pub symbol : order.symbol ≡ item_symbol item
    pub side : (order.side ≡ upper item.side) × (is_side (upper item.side) ≡ true)
    pub volume :
        (float_or_zero proposal.volume ≡ some order.volume) × (le order.volume (num 0 0) ≡ false)
    pub levels :
        (parsed proposal.stop_loss ≡ some order.stop_loss)
        × (parsed proposal.take_profit ≡ some order.take_profit)
    pub free : IsFree bridge order.symbol
    pub owner : active_owner later.tables user ≡ true

  check_mt5_proposal-sized :
      (side : Text) (proposal : Proposal F) {v : F}
      → check_mt5_proposal side proposal ≡ pass v
      → (float_or_zero proposal.volume ≡ some v) × (is_side side ≡ true) × (le v (num 0 0) ≡ false)
  unfolding check_mt5_proposal
  check_mt5_proposal-sized side proposal {v} h =
      let (w, ew, h1) = bind-pass (or_raise (float_or_zero proposal.volume)) _ h in
      let (u2, e2, h2) =
        bind-pass (unless (is_side side && not (le w (num 0 0))) invalid_order_proposal) _ h1 in
      let (u3, e3, h3) =
        bind-pass
          (unless (not (is_absent proposal.stop_loss || is_absent proposal.take_profit))
            protection_required)
          _ h2 in
      let same : w ≡ v = ground arith in
      let sized = unless-true (is_side side && not (le w (num 0 0))) invalid_order_proposal e2 in
      let at_v : is_side side && not (le v (num 0 0)) ≡ true = rw same at sized in
      (or_raise-some (float_or_zero proposal.volume) (rw same at ew), ground arith, ground arith)

  prepare_mt5-IsDemoOrder :
      {D : Type 0} (start later : World) (bridge : Bridge F) (user : ℕ) (item : Item F D)
      (proposal : Proposal F) {order : DemoOrder F}
      → prepare_mt5 start later bridge user item proposal ≡ pass order
      → IsDemoOrder start later bridge user item proposal order
  unfolding prepare_mt5
  prepare_mt5-IsDemoOrder start later bridge user item proposal {order} h =
      let ((c, p), er, h1) = bind-pass (find_route start user item) _ h in
      let (v, ev, h2) = bind-pass (check_mt5_proposal (upper item.side) proposal) _ h1 in
      let (u3, e3, h3) = bind-pass (check_bridge bridge (item_symbol item)) _ h2 in
      let (u4, e4, h4) =
        bind-pass (unless (active_owner later.tables user) account_owner_disabled) _ h3 in
      let (s, es, h5) = bind-pass (or_raise (parsed proposal.stop_loss)) _ h4 in
      let (t, et, h6) = bind-pass (or_raise (parsed proposal.take_profit)) _ h5 in
      let (number_of, side, above) = check_mt5_proposal-sized (upper item.side) proposal ev in
      let made : DemoOrder F = record {
        symbol = item_symbol item;
        side = upper item.side;
        volume = v;
        stop_loss = s;
        take_profit = t;
      } in
      let same : made ≡ order = ground arith in
      rw (sym same) (record {
        route = (c, p, er);
        symbol = refl;
        side = (refl, side);
        volume = (number_of, above);
        levels = (
          or_raise-some (parsed proposal.stop_loss) es,
          or_raise-some (parsed proposal.take_profit) et,
        );
        free = check_bridge-IsFree bridge (item_symbol item) e3;
        owner = unless-true (active_owner later.tables user) account_owner_disabled e4;
      })

  mt5_outcome-post :
      {A : Type 0} (s : Stage F A) (f : A → Mt5Outcome F) {order : DemoOrder F}
      → (mt5_outcome s f).post ≡ some order
      → (a : A) × (s ≡ pass a) × ((f a).post ≡ some order)
  mt5_outcome-post (pass a) f h = (a, refl, h)
  mt5_outcome-post (stop status reason) f h = cc

  -- An order that is posted is one of a route of the user, with the item's side, a volume not zero
  -- or below and both protective levels, at a demo server that allows trading, shows no position
  -- and no order of the symbol and accepts the check of the order, and shows neither again under
  -- the reservation; the owner is active after these answers.
  pub execute_mt5-IsDemoOrder :
      {D : Type 0} (start later : World) (bridge : Bridge F) (user : ℕ) (item : Item F D)
      (proposal : Proposal F) {order : DemoOrder F}
      → (execute_mt5 start later bridge user item proposal).post ≡ some order
      → IsDemoOrder start later bridge user item proposal order
        × (demo_checked bridge order.symbol ≡ true)
  unfolding execute_mt5 place_demo_order
  execute_mt5-IsDemoOrder start later bridge user item proposal {order} h =
      let (made, e, posted) =
        mt5_outcome-post (prepare_mt5 start later bridge user item proposal)
          (place_demo_order bridge) h in
      elim (Bool-cases (demo_checked bridge made.symbol)) [
        | inl checked ↦
            let same : made ≡ order = ground arith in
            (
              rw (sym same) (prepare_mt5-IsDemoOrder start later bridge user item proposal e),
              ap (λ o. demo_checked bridge o.symbol) (sym same) ∙ checked,
            )
        | inr unchecked ↦ ground arith
      ]
