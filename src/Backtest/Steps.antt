-- ===== src/Backtest/Steps.antt =====
-- One bar of `simulate`, in the order of its statements, and the run over all bars. none is an
-- error that is raised: an entry that is missing, a division by a peak of zero, and the last value
-- of an empty curve. The lot arithmetic on Python's Decimal is the parameter `round_down`, with
-- none where it raises: a division by a step of zero, or a text that is no decimal.
use atlas_markets.Base.{
  ℕ, suc, ◌-◌, Bool, true, false, not, ◌&&◌, ◌||◌, Option, none, some, List, [], ◌∷◌, drop,
  if◌then◌else◌,
}
use atlas_markets.Base.Float.{Float, fmin, fmax}
use atlas_markets.Backtest.{
  SignalSide, buy_signal, sell_signal, Signal, Bar, Rules, Position, Reason, gap_stop, gap_target,
  ema_exit, entry_gap_stop, both_touched_stop_first, stop, target, Book,
}

abbrev pub or_raise_with : {A B : Type 0} → Option A → (A → Option B) → Option B
or_raise_with none f = none
or_raise_with (some a) f = f a

abbrev pub is_side : {F : Type 0} → (SignalSide → Bool) → Option (Signal F) → Bool
is_side test none = false
is_side test (some signal) = test signal.side

abbrev pub is_buy : SignalSide → Bool
is_buy buy_signal = true
is_buy _ = false

abbrev pub is_sell : SignalSide → Bool
is_sell sell_signal = true
is_sell _ = false

-- With `curve[-1]`
abbrev pub last_marked : {F : Type 0} → Book F → List F → Option (Book F × F)
last_marked book [] = none
last_marked book (equity ∷ rest) = some (book, equity)

module _ {F : Type 0} ⦃fl : Float F⦄ where
  abbrev pub initial : F → Book F
  initial capital = record {
    cash = capital;
    qty = fl.num 0 0;
    entry = none;
    peak = capital;
    drawdown = fl.num 0 0;
    trades = [];
    blockers = record { exit_below_minimum = 0; invalid_stop_distance = 0; entry_size_or_cash = 0 };
    curve = [];
  }

module _ {F : Type 0} ⦃fl : Float F⦄ (round_down : F → F → Option F) (rules : Rules F)
    (slip : F) where
  open fl use {num, add, sub, mul, div, lt, le, eq, is_finite}

  -- The fee of a leg, ten basis points
  abbrev pub fee : F
  fee = num 1 3

  unfoldable pub booked : Book F → Position F → ℕ → Bar F → F → Reason → Book F
  booked book entry i bar price reason =
      let notional = mul book.qty price in
      let exit_fee = mul notional fee in
      record book {
        cash = add book.cash (sub notional exit_fee);
        trades =
            record {
              entry = entry;
              exit_index = i;
              exit_time = bar.time;
              exit_price = price;
              exit_fee = exit_fee;
              exit_reason = reason;
              pnl = sub (sub (mul book.qty (sub price entry.price)) entry.fee) exit_fee;
            }
            ∷ book.trades;
        qty = num 0 0;
        entry = none;
      }

  abbrev pub too_small : Book F → F → Bool
  too_small book price =
      lt (mul book.qty price) rules.minimum_notional || lt book.qty rules.minimum_quantity

  abbrev pub exit_blocked : Book F → Book F
  exit_blocked book = record book {
    blockers = record (book.blockers) { exit_below_minimum = suc book.blockers.exit_below_minimum };
  }

  unfoldable pub close : Book F → ℕ → Bar F → F → Reason → Option (Book F)
  unfolding booked
  close book i bar reference reason =
      let price = mul reference (sub (num 1 0) slip) in
      if too_small book price then some (exit_blocked book) else elim book.entry [
        | none ↦ none
        | some entry ↦ some (booked book entry i bar price reason)
      ]

  -- The exit at the opening of a bar, and its price
  unfoldable pub opening_exit : Position F → Bar F → Option (Signal F) → Option (Reason × F)
  opening_exit entry bar signal =
      if le bar.opening entry.stop_loss
      then some (gap_stop, bar.opening)
      else if le entry.take_profit bar.opening
      then some (gap_target, entry.take_profit)
      else if is_side is_sell signal
      then some (ema_exit, bar.opening)
      else none

  -- With `attempted_exit`
  unfoldable pub leave_opening : Book F → ℕ → Bar F → Option (Reason × F) → Option (Book F × Bool)
  unfolding close
  leave_opening book i bar none = some (book, false)
  leave_opening book i bar (some (reason, trigger)) =
      or_raise_with (close book i bar trigger reason) (λ next. some (next, true))

  unfoldable pub exit_at_opening : Book F → ℕ → Bar F → Option (Signal F) → Option (Book F × Bool)
  unfolding opening_exit leave_opening
  exit_at_opening book i bar signal = elim book.entry [
    | none ↦ none
    | some entry ↦ leave_opening book i bar (opening_exit entry bar signal)
  ]

  abbrev pub distance_of : Signal F → F
  distance_of signal = elim signal.atr [
    | none ↦ mul (num 0 0) (num 2 0)
    | some volatility ↦ mul volatility (num 2 0)
  ]

  unfoldable pub units_of : Book F → F → F → Option F
  units_of book price distance =
      round_down
        (fmin
          (fmin
            (fmin (div (mul book.cash (num 1 2)) distance) (div (mul book.cash (num 2 1)) price))
            (div book.cash (mul price (add (num 1 0) fee))))
          rules.maximum_quantity)
        rules.step

  unfoldable pub opened : Book F → ℕ → Bar F → Signal F → F → F → F → Book F
  opened book i bar signal price distance units =
      let notional = mul units price in
      record book {
        qty = units;
        cash = sub book.cash (mul notional (add (num 1 0) fee));
        entry = some (record {
          index = i;
          entry_time = bar.time;
          price = price;
          quantity = units;
          fee = mul notional fee;
          stop_loss = sub price distance;
          take_profit = add price (mul (num 3 0) distance);
          atr = signal.atr;
        });
      }

  abbrev pub bad_distance : F → F → Bool
  bad_distance price distance =
      not (is_finite distance) || not (lt (num 0 0) distance && lt distance price)

  abbrev pub distance_blocked : Book F → Book F
  distance_blocked book = record book {
    blockers = record (book.blockers) {
      invalid_stop_distance = suc book.blockers.invalid_stop_distance;
    };
  }

  abbrev pub size_blocked : Book F → Book F
  size_blocked book = record book {
    blockers = record (book.blockers) { entry_size_or_cash = suc book.blockers.entry_size_or_cash };
  }

  abbrev pub entry_refused : Book F → F → F → Bool
  entry_refused book price units =
      le units (num 0 0)
      || lt units rules.minimum_quantity
      || lt (mul units price) rules.minimum_notional
      || lt book.cash (mul (mul units price) (add (num 1 0) fee))

  -- An entry of `units`, unless the size or the cash forbids it
  unfoldable pub enter_with : Book F → ℕ → Bar F → Signal F → F → F → F → Option (Book F × Bool)
  unfolding opened close
  enter_with book i bar signal price distance units =
      if entry_refused book price units
      then some (size_blocked book, false)
      else if le bar.opening (sub price distance)
      then or_raise_with
          (close (opened book i bar signal price distance units) i bar bar.opening entry_gap_stop)
          (λ next. some (next, true))
      else some (opened book i bar signal price distance units, false)

  unfoldable pub enter : Book F → ℕ → Bar F → Signal F → Option (Book F × Bool)
  unfolding units_of enter_with
  enter book i bar signal =
      let price = mul bar.opening (add (num 1 0) slip) in
      let distance = distance_of signal in
      if bad_distance price distance
      then some (distance_blocked book, false)
      else or_raise_with (units_of book price distance)
          (enter_with book i bar signal price distance)

  abbrev pub on_signal : Book F → ℕ → Bar F → Option (Signal F) → Option (Book F × Bool)
  on_signal book i bar none = some (book, false)
  on_signal book i bar (some signal) =
      if is_buy signal.side then enter book i bar signal else some (book, false)

  abbrev pub at_opening : Book F → ℕ → Bar F → Option (Signal F) → Option (Book F × Bool)
  at_opening book i bar signal =
      if lt (num 0 0) book.qty
      then exit_at_opening book i bar signal
      else on_signal book i bar signal

  -- The exit inside a bar: the stop goes first.
  unfoldable pub inside_exit : Position F → Bar F → Option (Reason × F)
  inside_exit entry bar =
      let stopped = le bar.low entry.stop_loss in
      let reached = le entry.take_profit bar.high in
      if stopped
      then some (if reached then both_touched_stop_first else stop, entry.stop_loss)
      else if reached
      then some (target, entry.take_profit)
      else none

  unfoldable pub leave_inside : Book F → ℕ → Bar F → Option (Reason × F) → Option (Book F)
  unfolding close
  leave_inside book i bar none = some book
  leave_inside book i bar (some (reason, trigger)) = close book i bar trigger reason

  unfoldable pub exit_inside : Book F → ℕ → Bar F → Option (Book F)
  unfolding inside_exit leave_inside
  exit_inside book i bar = elim book.entry [
    | none ↦ none
    | some entry ↦ leave_inside book i bar (inside_exit entry bar)
  ]

  abbrev pub inside : Book F → Bool → ℕ → Bar F → Option (Book F)
  inside book attempted_exit i bar =
      if lt (num 0 0) book.qty && not attempted_exit then exit_inside book i bar else some book

  -- The equity at the close of the bar, its peak and the drawdown from there
  unfoldable pub marked : Book F → Bar F → Option (Book F)
  marked book bar =
      let equity = add book.cash (mul book.qty bar.closing) in
      let peak = fmax book.peak equity in
      if eq peak (num 0 0)
      then none
      else some (record book {
        peak = peak;
        drawdown = fmax book.drawdown (mul (div (sub peak equity) peak) (num 100 0));
        curve = equity ∷ book.curve;
      })

  unfoldable pub bar_step : Book F → ℕ → Bar F → Option (Signal F) → Option (Book F)
  unfolding exit_at_opening enter exit_inside marked
  bar_step book i bar signal =
      or_raise_with (at_opening book i bar signal) (λ (opened_book, attempted_exit).
        or_raise_with (inside opened_book attempted_exit i bar) (λ closed. marked closed bar))

  -- The bars from index `i` on, each with the signal of the bar before it
  unfoldable pub bars_from : Book F → ℕ → List (Bar F × Option (Signal F)) → Option (Book F)
  unfolding bar_step
  bars_from book i [] = some book
  bars_from book i ((bar, signal) ∷ rest) =
      or_raise_with (bar_step book i bar signal) (λ next. bars_from next (suc i) rest)

-- The bars from `start`, each with the signal of the bar before it. `start` is above zero, and there
-- is a signal for each row.
abbrev pub paired : {A B : Type 0} → List A → List B → List (A × B)
paired [] bs = []
paired (a ∷ rest) [] = []
paired (a ∷ rest) (b ∷ bs) = (a, b) ∷ paired rest bs

module _ {F : Type 0} ⦃fl : Float F⦄ (round_down : F → F → Option F) where
  -- The slippage is in basis points.
  unfoldable pub simulate :
      List (Bar F) → List (Option (Signal F)) → ℕ → Rules F → F → F → Option (Book F × F)
  unfolding bars_from
  simulate rows signals start rules capital slip_bps =
      let slip = fl.div slip_bps (fl.num 10000 0) in
      or_raise_with
        (bars_from round_down rules slip (initial capital) start
          (paired (drop start rows) (drop (start - 1) signals)))
        (λ book. last_marked book book.curve)
