-- ===== src/Sizing.antt =====
-- How much a paper order takes and when it is left: app/services/capital_sizing.py,
-- app/services/paper_execution.py and `evaluate_risk` of app/services/signal_risk.py.
pub mod Capital
use atlas_markets.Base.{
  ℕ, Bool, true, false, not, ◌&&◌, ◌||◌, Option, none, some, List, [], ◌∷◌, if◌then◌else◌,
}
use atlas_markets.Base.Text.{Text, codes, text_eq, mem_text, upper}
use atlas_markets.Base.Answer.{Answer, done, refused, ◌>>=◌, require}
use atlas_markets.Base.Float.{Float, Raw, absent, malformed, number, float_or_zero, fmin, fmax}
use atlas_markets.Exits.{Decision, buy, sell, hold}

pub data Basis : Type 0 where
  broker_equity simulation_override : Basis

abbrev pub simulation_environments : List Text
simulation_environments = codes "PAPER" ∷ codes "DEMO" ∷ codes "TESTNET" ∷ []

pub record Sized (F : Type 0) : Type 0 where
  pub equity : F
  pub available : F
  pub basis : Basis

pub data RiskReason : Type 0 where
  account_disabled no_direction signal_score_below_minimum live_trading_disabled : RiskReason
  approved_for_simulation : RiskReason

pub data PlanError : Type 0 where
  only_buy_or_sell not_positive invalid_parameters size_zero : PlanError

pub record PaperExecutionPlan (F : Type 0) : Type 0 where
  pub side : Decision
  pub quantity : F
  pub notional : F
  pub stop_loss : F
  pub take_profit : F
  pub risk_amount : F

pub data Trigger : Type 0 where
  stop_loss take_profit : Trigger

abbrev pub is_hold : Decision → Bool
is_hold hold = true
is_hold _ = false

abbrev pub is_buy_side : Decision → Bool
is_buy_side buy = true
is_buy_side _ = false

module _ {F : Type 0} ⦃fl : Float F⦄ where
  open fl use {num, neg, add, sub, mul, div, lt, le, eq}

  abbrev pub of_override : F → F → F → Sized F
  of_override equity available override = record {
    equity = fmin equity override;
    available = fmin available (fmin equity override);
    basis = simulation_override;
  }

  abbrev pub of_broker : F → F → Sized F
  of_broker equity available = record {
    equity = equity;
    available = available;
    basis = broker_equity;
  }

  unfoldable pub sized : F → F → Text → F → Sized F
  sized equity_read available_read environment override =
      let equity = fmax (num 0 0) equity_read in
      let available = fmax (num 0 0) (fmin available_read equity) in
      if mem_text (upper environment) simulation_environments && lt (num 0 0) override
      then of_override equity available override
      else of_broker equity available

  -- none is a value that `float` does not read.
  unfoldable pub capital_sizing_inputs : Raw F → Raw F → Text → Raw F → Option (Sized F)
  unfolding sized
  capital_sizing_inputs equity available environment override = elim (float_or_zero equity) [
    | none ↦ none
    | some e ↦ elim (float_or_zero available) [
      | none ↦ none
      | some a ↦ elim (float_or_zero override) [
        | none ↦ none
        | some o ↦ some (sized e a environment o)
      ]
    ]
  ]

  -- Without the details that the third value repeats
  unfoldable pub evaluate_risk : Decision → F → F → Bool → Bool → Text → Bool × RiskReason
  evaluate_risk decision strength minimum_signal_score account_enabled allow_live_trading
        environment =
      if not account_enabled
      then (false, account_disabled)
      else if is_hold decision
      then (false, no_direction)
      else if lt strength minimum_signal_score
      then (false, signal_score_below_minimum)
      else if text_eq (upper environment) (codes "LIVE") && not allow_live_trading
      then (false, live_trading_disabled)
      else (true, approved_for_simulation)

  abbrev pub atr_or : F → Option F → F
  atr_or default none = default
  atr_or default (some atr) = if eq atr (num 0 0) then default else atr

  unfoldable pub stop_distance : F → Option F → F → F
  stop_distance price atr stop_atr_multiplier =
      fmax (mul (atr_or (mul price (num 1 2)) atr) stop_atr_multiplier) (mul price (num 5 3))

  -- `round_eight` is `round(x, 8)`.
  unfoldable pub build_execution_plan :
      (F → F)
      → Decision
      → F
      → F
      → F
      → F
      → Option F
      → F
      → F
      → F
      → Answer PlanError (PaperExecutionPlan F)
  unfolding stop_distance
  build_execution_plan round_eight decision price equity available_cash risk_per_trade_pct atr
        stop_atr_multiplier take_profit_rr max_position_notional_pct =
      do
        directed ← require (not (is_hold decision)) only_buy_or_sell
        positive ←
            require (not (le price (num 0 0) || le equity (num 0 0) || le available_cash (num 0 0)))
              not_positive
        valid ←
            require
              (not (
                le stop_atr_multiplier (num 0 0)
                || le take_profit_rr (num 0 0)
                || not (
                    lt (num 0 0) max_position_notional_pct
                    && le max_position_notional_pct (num 100 0))))
              invalid_parameters
        let risk_amount = mul equity (div risk_per_trade_pct (num 100 0))
        let distance = stop_distance price atr stop_atr_multiplier
        let max_notional = mul available_cash (div max_position_notional_pct (num 100 0))
        let quantity = fmin (div risk_amount distance) (div max_notional price)
        sized_above ← require (not (le quantity (num 0 0))) size_zero
        let reward = mul distance take_profit_rr
        let is_buy = is_buy_side decision
        done (record {
          side = decision;
          quantity = round_eight quantity;
          notional = round_eight (mul quantity price);
          stop_loss = round_eight (if is_buy then sub price distance else add price distance);
          take_profit = round_eight (if is_buy then add price reward else sub price reward);
          risk_amount = round_eight risk_amount;
        })

  unfoldable pub position_pnl : Bool → F → F → F → F
  position_pnl is_buy quantity entry_price mark_price =
      mul (mul (sub mark_price entry_price) quantity) (if is_buy then num 1 0 else neg (num 1 0))

  abbrev pub reached : (F → F → Bool) → F → Option F → Bool
  reached test mark none = false
  reached test mark (some level) = test mark level

  abbrev pub ge : F → F → Bool
  ge a b = le b a

  unfoldable pub exit_trigger : Bool → F → Option F → Option F → Option Trigger
  exit_trigger is_buy mark_price stop target =
      if is_buy
      then if reached le mark_price stop
        then some stop_loss
        else if reached ge mark_price target
        then some take_profit
        else none
      else if reached ge mark_price stop
      then some stop_loss
      else if reached le mark_price target
      then some take_profit
      else none
