-- ===== src/Tests/Candles.antt =====
-- Candles and quotes on concrete inputs.
use atlas_markets.Base.{
  ℕ, zero, suc, ◌+◌, ◌*◌, ◌≡◌, refl, true, false, Option, none, some, List, [], ◌∷◌,
}
use atlas_markets.Base.Text.{codes}
use atlas_markets.Base.Float.{number}
use atlas_markets.Base.Float.Fixed.{Fixed, fixed_float}
use atlas_markets.Candles.{
  Candle, derived, good, interval_ms, completed_trading_candles, checked_row, order_invalid, bad,
}
use atlas_markets.Candles.Quality.{
  Quote, PriceField, ask, last, bid, price_field, IsUsable, ibkr_entry_quote_quality,
  ibkr_entry_quote_quality-IsUsable,
}

abbrev unit : ℕ → Fixed
unit n = fixed_float.num n 0

-- The candle of minute `n + 1`.
abbrev pub candle : ℕ → Candle Fixed
candle n = record {
  timestamp = some ((n + 1) * 60_000);
  interval = none;
  bar_end = derived;
  open_price = number (unit 10);
  high = number (unit 12);
  low = number (unit 9);
  close = number (unit 11);
}

abbrev pub candles : ℕ → ℕ → List (Candle Fixed)
candles zero n = []
candles (suc k) n = candle n ∷ candles k (n + 1)

-- The last of 32 candles is not over yet.
kept_count :
    completed_trading_candles (candles 32 0) (codes "1m") (60_000 * 32) 200 ≡ good (candles 31 0)
unfolding completed_trading_candles interval_ms checked_row
kept_count = refl

same_stamp :
    completed_trading_candles (candle 1 ∷ candle 1 ∷ []) (codes "1m") 0 200 ≡ bad order_invalid
unfolding completed_trading_candles interval_ms checked_row
same_stamp = refl

abbrev prices : PriceField → Option Fixed
prices ask = none
prices last = some (unit 50)
prices bid = some (unit 49)

abbrev quote : Quote Fixed
quote = record {
  snapshot = true;
  market_data_type = some 1;
  delayed_ticks = false;
  price = prices;
  received = λ field. some 90_000;
  last_trade = some (some 80_000);
}

ibkr_entry_quote_quality-IsUsable_example :
    (field : PriceField) × (price_field quote true ≡ some field) × IsUsable quote 100_000 field
unfolding ibkr_entry_quote_quality
ibkr_entry_quote_quality-IsUsable_example =
    ibkr_entry_quote_quality-IsUsable quote true 100_000 refl
