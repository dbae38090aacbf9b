-- ===== src/Backtest.antt =====
-- `simulate` of app/backtesting/spot_breakout_v1.py: one Spot position at a time over 5-minute bars.
pub mod Steps
pub mod Sequence
pub mod Total
pub mod Run
use atlas_markets.Base.{
  ℕ, suc, ◌≡◌, Bool, true, false, not, ◌&&◌, ◌||◌, Option, none, some, List, [], ◌∷◌, drop,
  if◌then◌else◌,
}
use atlas_markets.Base.Float.{Float, fmin, fmax}

pub data SignalSide : Type 0 where
  buy_signal sell_signal hold_signal : SignalSide

pub record Signal (F : Type 0) : Type 0 where
  pub side : SignalSide
  pub atr : Option F

pub record Bar (F : Type 0) : Type 0 where
  pub time : ℕ
  pub opening : F
  pub high : F
  pub low : F
  pub closing : F

pub record Rules (F : Type 0) : Type 0 where
  pub minimum_notional : F
  pub minimum_quantity : F
  pub maximum_quantity : F
  pub step : F

pub record Position (F : Type 0) : Type 0 where
  pub index : ℕ
  pub entry_time : ℕ
  pub price : F
  pub quantity : F
  pub fee : F
  pub stop_loss : F
  pub take_profit : F
  pub atr : Option F

pub data Reason : Type 0 where
  gap_stop gap_target ema_exit entry_gap_stop both_touched_stop_first stop target : Reason

pub record Trade (F : Type 0) : Type 0 where
  pub entry : Position F
  pub exit_index : ℕ
  pub exit_time : ℕ
  pub exit_price : F
  pub exit_fee : F
  pub exit_reason : Reason
  pub pnl : F

-- The counts of the blockers
pub record Blockers : Type 0 where
  pub exit_below_minimum : ℕ
  pub invalid_stop_distance : ℕ
  pub entry_size_or_cash : ℕ

-- The local variables of the run; the trades and the curve with the latest first.
pub record Book (F : Type 0) : Type 0 where
  pub cash : F
  pub qty : F
  pub entry : Option (Position F)
  pub peak : F
  pub drawdown : F
  pub trades : List (Trade F)
  pub blockers : Blockers
  pub curve : List F
