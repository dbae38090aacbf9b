-- ===== src/Tests/Sizing.antt =====
-- Runs of the sizing and of a paper order on exact decimals.
use atlas_markets.Base.{ℕ, ◌≡◌, refl, true, false, none, some}
use atlas_markets.Base.Int.{◌+ℤ◌, ◌-ℤ◌, ◌*ℤ◌}
use atlas_markets.Base.Text.{codes}
use atlas_markets.Base.Answer.{done, refused}
use atlas_markets.Base.Float.{absent, number}
use atlas_markets.Base.Float.Fixed.{Fixed, fixed_float, Fixed-IsOrdered}
use atlas_markets.Exits.{buy, sell, hold}
use atlas_markets.Sizing.{
  Sized, simulation_override, stop_loss, only_buy_or_sell, live_trading_disabled,
  capital_sizing_inputs, evaluate_risk, build_execution_plan, position_pnl, exit_trigger,
}
use atlas_markets.Sizing.Capital.{IsBounded, capital_sizing_inputs-bounds}

abbrev dec : ℕ → ℕ → Fixed
dec = fixed_float.num

override_caps :
    capital_sizing_inputs
      (number (dec 500 0))
      (number (dec 900 0))
      (codes "paper")
      (number (dec 200 0))
    ≡ some (record { equity = dec 200 0; available = dec 200 0; basis = simulation_override })
unfolding capital_sizing_inputs
override_caps = refl

live_blocked :
    evaluate_risk sell (dec 80 0) (dec 65 0) true false (codes "live")
    ≡ (false, live_trading_disabled)
unfolding evaluate_risk
live_blocked = refl

-- One percent of 1000 is risked over a distance of 3, and the notional is at most a fifth of the cash.
plan :
    build_execution_plan
      (λ x. x)
      buy
      (dec 100 0)
      (dec 1000 0)
      (dec 1000 0)
      (dec 1 0)
      (some (dec 2 0))
      (dec 15 1)
      (dec 2 0)
      (dec 20 0)
    ≡ done (record {
      side = buy;
      quantity = dec 2 0;
      notional = dec 200 0;
      stop_loss = dec 97 0;
      take_profit = dec 106 0;
      risk_amount = dec 10 0;
    })
unfolding build_execution_plan ◌*ℤ◌ ◌-ℤ◌ ◌+ℤ◌
plan = refl

no_plan :
    build_execution_plan
      (λ x. x)
      hold
      (dec 100 0)
      (dec 1000 0)
      (dec 1000 0)
      (dec 1 0)
      none
      (dec 15 1)
      (dec 2 0)
      (dec 20 0)
    ≡ refused only_buy_or_sell
unfolding build_execution_plan
no_plan = refl

short_stopped : exit_trigger false (dec 105 0) (some (dec 104 0)) (some (dec 90 0)) ≡ some stop_loss
unfolding exit_trigger
short_stopped = refl

short_profit : position_pnl false (dec 2 0) (dec 100 0) (dec 95 0) ≡ dec 10 0
unfolding position_pnl ◌*ℤ◌ ◌-ℤ◌
short_profit = refl

capital_sizing_inputs-bounds_example :
    (s : Sized Fixed) × (capital_sizing_inputs
        (number (dec 500 0))
        absent
        (codes "paper")
        (number (dec 200 0))
      ≡ some s)
    × IsBounded Fixed-IsOrdered (codes "paper") (dec 500 0) (dec 200 0) s
capital_sizing_inputs-bounds_example =
    capital_sizing_inputs-bounds Fixed-IsOrdered (number (dec 500 0)) absent (codes "paper")
      (number (dec 200 0)) refl refl refl refl refl refl refl
