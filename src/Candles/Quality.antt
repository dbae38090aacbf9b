-- ===== src/Candles/Quality.antt =====
-- `entry_candle_quality` and `ibkr_entry_quote_quality` of app/services/trading_candles.py and
-- `delayed_reference` of app/services/ibkr_paper_data.py: how fresh the data of an entry is. Rows
-- have passed `completed_trading_candles`.
use atlas_markets.Base.{
  ℕ, ◌+◌, ◌≤◌, ◌≡◌, refl, Bool, true, false, not, ◌&&◌, ◌||◌, Option, none, some, List, [], ◌∷◌,
  length, leb, ltb, ◌==◌, sym, arith, if◌then◌else◌, Option-cases, Bool-cases, inl, inr,
}
use atlas_markets.Base.Text.{Text}
use atlas_markets.Base.Float.{Float}
use atlas_markets.Ibkr.Shares.{parsed}
use atlas_markets.Candles.{derived, not_int, at, Candle, interval_ms}

pub data QualityReason : Type 0 where
  candle_history_insufficient candles_stale : QualityReason
  realtime_quote_required quote_price_invalid quote_stale : QualityReason
  last_trade_time_required last_trade_stale : QualityReason

abbrev pub maximum_age : ℕ → Bool → ℕ
maximum_age duration paper_delayed = duration + 90_000 + (if paper_delayed then 1_200_000 else 0)

unfoldable pub is_fresh : ℕ → ℕ → ℕ → Bool
is_fresh maximum now e = leb e now && leb now (e + maximum)

module _ {F : Type 0} where
  abbrev pub last_row : List (Candle F) → Option (Candle F)
  last_row [] = none
  last_row (row ∷ []) = some row
  last_row (row ∷ next ∷ rows) = last_row (next ∷ rows)

  -- The end of a bar, none where reading it raises.
  unfoldable pub end_ms : ℕ → Candle F → Option ℕ
  end_ms duration row = elim row.timestamp [
    | none ↦ none
    | some stamp ↦ elim row.bar_end [
      | derived ↦ some (stamp + duration)
      | not_int ↦ none
      | at e ↦ some e
    ]
  ]

  -- The reason of the gate; the outer none is an exception.
  unfoldable pub entry_candle_quality :
      List (Candle F) → Text → ℕ → Bool → Option (Option QualityReason)
  unfolding end_ms is_fresh
  entry_candle_quality rows timeframe now paper_delayed = elim (interval_ms timeframe) [
    | none ↦ none
    | some duration ↦ elim (last_row rows) [
      | none ↦ some (some candle_history_insufficient)
      | some row ↦ elim (end_ms duration row) [
        | none ↦ none
        | some e ↦ some (
            if ltb (length rows) 200
            then some candle_history_insufficient
            else if is_fresh (maximum_age duration paper_delayed) now e
            then none
            else some candles_stale)
      ]
    ]
  ]

pub data PriceField : Type 0 where
  ask last bid : PriceField

-- A quote: a price or a time that is missing or of another type is none. `last_trade` is none
-- where the key is missing.
pub record Quote (F : Type 0) : Type 0 where
  pub snapshot : Bool
  pub market_data_type : Option ℕ
  pub delayed_ticks : Bool
  pub price : PriceField → Option F
  pub received : PriceField → Option ℕ
  pub last_trade : Option (Option ℕ)

abbrev within : ℕ → ℕ → ℕ → ℕ → Bool
within early late now t = leb t (now + early) && leb now (t + late)

abbrev pub is_live : Option ℕ → Bool
is_live none = false
is_live (some kind) = kind == 1

abbrev pub received_recently : ℕ → Option ℕ → Bool
received_recently now none = false
received_recently now (some t) = within 0 30_000 now t

abbrev pub trade_reason : ℕ → Option (Option ℕ) → Option QualityReason
trade_reason now none = some last_trade_time_required
trade_reason now (some none) = some last_trade_stale
trade_reason now (some (some t)) = if within 2_000 30_000 now t then none else some last_trade_stale

received_recently-arrived :
    (now : ℕ) (received : Option ℕ)
    → received_recently now received ≡ true
    → (t : ℕ) × (received ≡ some t) × (t ≤ now) × (now ≤ t + 30_000)
received_recently-arrived now none h = cc
received_recently-arrived now (some t) h = (t, refl, ground arith, ground arith)

trade_reason-recent :
    (now : ℕ) (trade : Option (Option ℕ))
    → trade_reason now trade ≡ none
    → (t : ℕ) × (trade ≡ some (some t)) × (now ≤ t + 30_000)
trade_reason-recent now none h = cc
trade_reason-recent now (some none) h = cc
trade_reason-recent now (some (some t)) h = (t, refl, ground arith)

module _ {F : Type 0} ⦃fl : Float F⦄ where
  open fl use {num, lt, is_finite}

  abbrev pub usable : Option F → Bool
  usable none = false
  usable (some x) = is_finite x && lt (num 0 0) x

  first_usable : Quote F → PriceField → PriceField → PriceField → Option PriceField
  first_usable quote a b c =
      if usable (quote.price a)
      then some a
      else if usable (quote.price b)
      then some b
      else if usable (quote.price c)
      then some c
      else none

  unfoldable pub price_field : Quote F → Bool → Option PriceField
  unfolding first_usable
  price_field quote buy =
      if buy then first_usable quote ask last bid else first_usable quote bid last ask

  -- The reason for a price field whose arrival is recent: a last price needs a recent trade.
  abbrev field_reason : Quote F → ℕ → PriceField → Option QualityReason
  field_reason quote now ask = none
  field_reason quote now bid = none
  field_reason quote now last = trade_reason now quote.last_trade

  unfoldable pub ibkr_entry_quote_quality : Quote F → Bool → ℕ → Option QualityReason
  unfolding price_field
  ibkr_entry_quote_quality quote buy now =
      if not quote.snapshot || not (is_live quote.market_data_type) || quote.delayed_ticks
      then some realtime_quote_required
      else elim (price_field quote buy) [
        | none ↦ some quote_price_invalid
        | some field ↦
            if not (received_recently now (quote.received field))
            then some quote_stale
            else field_reason quote now field
      ]

  -- `delayed_reference`: the exception of a stale candle or of a close that is no price is none.
  unfoldable pub delayed_reference : List (Candle F) → Text → ℕ → Option F
  unfolding entry_candle_quality
  delayed_reference candles timeframe now = elim (entry_candle_quality candles timeframe now true) [
    | none ↦ none
    | some (some reason) ↦ none
    | some none ↦ elim (last_row candles) [
      | none ↦ none
      | some row ↦ elim (parsed row.close) [
        | none ↦ none
        | some x ↦ if usable (some x) then some x else none
      ]
    ]
  ]

  -- A quote that an entry may use: live, with a finite price above zero that arrived in the last 30
  -- seconds; if the price is that of the last trade, the trade is at most 30 seconds old.
  pub record IsUsable (quote : Quote F) (now : ℕ) (field : PriceField) : Type 0 where
    pub from_snapshot : quote.snapshot ≡ true
    pub live : is_live quote.market_data_type ≡ true
    pub current : quote.delayed_ticks ≡ false
    pub priced : usable (quote.price field) ≡ true
    pub arrived : (t : ℕ) × (quote.received field ≡ some t) × (t ≤ now) × (now ≤ t + 30_000)
    pub traded : field ≡ last → (t : ℕ) × (quote.last_trade ≡ some (some t)) × (now ≤ t + 30_000)

  first_usable-usable :
      (quote : Quote F) (a b c : PriceField) {field : PriceField}
      → first_usable quote a b c ≡ some field
      → usable (quote.price field) ≡ true
  unfolding first_usable
  first_usable-usable quote a b c {field} h = elim (Bool-cases (usable (quote.price a))) [
    | inl ua ↦ let same : a ≡ field = ground arith in rw (sym same) ua
    | inr na ↦ elim (Bool-cases (usable (quote.price b))) [
      | inl ub ↦ let same : b ≡ field = ground arith in rw (sym same) ub
      | inr nb ↦ elim (Bool-cases (usable (quote.price c))) [
        | inl uc ↦ let same : c ≡ field = ground arith in rw (sym same) uc
        | inr nc ↦ ground arith
      ]
    ]
  ]

  price_field-usable :
      (quote : Quote F) (buy : Bool) {field : PriceField}
      → price_field quote buy ≡ some field
      → usable (quote.price field) ≡ true
  unfolding price_field
  price_field-usable quote true h = first_usable-usable quote ask last bid h
  price_field-usable quote false h = first_usable-usable quote bid last ask h

  -- A quote that passes the gate is one that an entry may use, at the first usable price in the
  -- order of the side.
  pub ibkr_entry_quote_quality-IsUsable :
      (quote : Quote F) (buy : Bool) (now : ℕ)
      → ibkr_entry_quote_quality quote buy now ≡ none
      → (field : PriceField) × (price_field quote buy ≡ some field) × IsUsable quote now field
  unfolding ibkr_entry_quote_quality
  ibkr_entry_quote_quality-IsUsable quote buy now h = elim (Option-cases (price_field quote buy)) [
    | inl unpriced ↦ ground arith
    | inr (field, found) ↦
        let recent : received_recently now (quote.received field) ≡ true = ground arith in
        let passes : field_reason quote now field ≡ none = ground arith in
        (
          field,
          found,
          record {
            from_snapshot = ground arith;
            live = ground arith;
            current = ground arith;
            priced = price_field-usable quote buy found;
            arrived = received_recently-arrived now (quote.received field) recent;
            traded = λ same. trade_reason-recent now quote.last_trade (rw same at passes);
          },
        )
  ]
