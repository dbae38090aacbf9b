-- ===== src/Candles.antt =====
-- app/services/trading_candles.py and app/services/ibkr_paper_data.py: which candles and quotes a
-- trading decision may use. Times are milliseconds; an integer that is not above zero is treated
-- as the source does, and read as `none` where it fails the same test as a value of another type.
pub mod Sound
pub mod Quality
use atlas_markets.Base.{
  ℕ, suc, ◌+◌, ◌*◌, ◌≡◌, refl, Bool, true, false, not, ◌&&◌, ◌||◌, Option, none, some, List, [],
  ◌∷◌, ◌++◌, length, take_last, leb, ltb, ◌==◌, if◌then◌else◌, is_some,
}
use atlas_markets.Base.Text.{Text, codes, text_eq}
use atlas_markets.Base.Float.{Float, Raw, fmin, fmax}
use atlas_markets.Ibkr.Shares.{parsed}

pub data CandleError : Type 0 where
  interval_unsupported timestamp_required order_invalid interval_mismatch : CandleError
  end_invalid ohlc_invalid not_a_number insufficient timeframe_unverified : CandleError

pub data Checked {ℓ} (A : Type ℓ) : Type ℓ where
  good : A → Checked A
  bad : CandleError → Checked A

infixl 5 ◌>>=◌
abbrev pub ◌>>=◌ : {A B : Type 0} → Checked A → (A → Checked B) → Checked B
good a >>= f = f a
bad e >>= f = bad e

-- `bar_end_ms` may be missing, no integer, or an integer.
pub data BarEnd : Type 0 where
  derived : BarEnd
  not_int : BarEnd
  at : ℕ → BarEnd

-- `interval` is none where the row has no such key.
pub record Candle (F : Type 0) : Type 0 where
  pub timestamp : Option ℕ
  pub interval : Option Text
  pub bar_end : BarEnd
  pub open_price : Raw F
  pub high : Raw F
  pub low : Raw F
  pub close : Raw F

abbrev minutes : ℕ → ℕ
minutes n = n * 60_000

abbrev hours : ℕ → ℕ
hours n = n * 3_600_000

abbrev intervals : List (Text × ℕ)
intervals =
    (codes "1m", minutes 1)
    ∷ (codes "3m", minutes 3)
    ∷ (codes "5m", minutes 5)
    ∷ (codes "15m", minutes 15)
    ∷ (codes "30m", minutes 30)
    ∷ (codes "1h", hours 1)
    ∷ (codes "2h", hours 2)
    ∷ (codes "4h", hours 4)
    ∷ (codes "6h", hours 6)
    ∷ (codes "12h", hours 12)
    ∷ (codes "1d", 86_400_000)
    ∷ []

look : Text → List (Text × ℕ) → Option ℕ
look k [] = none
look k ((j, n) ∷ rest) = if text_eq k j then some n else look k rest

-- `INTERVAL_MS.get(timeframe)`
unfoldable pub interval_ms : Text → Option ℕ
unfolding look
interval_ms timeframe = look timeframe intervals

abbrev pub is_daily : Text → Bool
is_daily timeframe = text_eq timeframe (codes "1d")

abbrev pub is_positive_stamp : ℕ → Bool
is_positive_stamp n = ltb 0 n

-- The end of a bar that fits its length; a daily bar may span 23 to 25 hours.
unfoldable pub end_of : Text → ℕ → ℕ → BarEnd → Checked ℕ
end_of timeframe duration stamp not_int = bad end_invalid
end_of timeframe duration stamp derived =
    if is_daily timeframe && not (leb (hours 23) duration && leb duration (hours 25))
    then bad end_invalid
    else if leb (stamp + duration) stamp
    then bad end_invalid
    else good (stamp + duration)
end_of timeframe duration stamp (at e) =
    if leb e stamp
    then bad end_invalid
    else if not (is_daily timeframe) && not (e == stamp + duration)
    then bad end_invalid
    else if is_daily timeframe && not (leb (stamp + hours 23) e && leb e (stamp + hours 25))
    then bad end_invalid
    else good e

abbrev pub in_order : Option ℕ → ℕ → Checked (Unit {0})
in_order none stamp = good tt
in_order (some previous) stamp = if leb stamp previous then bad order_invalid else good tt

module _ {F : Type 0} ⦃fl : Float F⦄ where
  open fl use {num, lt, is_finite}

  abbrev pub positive : F → Bool
  positive v = is_finite v && lt (num 0 0) v

  abbrev pub ohlc_ok : F → F → F → F → Bool
  ohlc_ok o h l c =
      (positive o && positive h && positive l && positive c)
      && not (lt (fmin o c) l)
      && not (lt h (fmax o c))

  abbrev pub number_of : Raw F → Checked F
  number_of raw = elim (parsed raw) [ none ↦ bad not_a_number | some x ↦ good x ]

  unfoldable pub checked_prices : Candle F → Checked (Unit {0})
  checked_prices row = do
    o ← number_of row.open_price
    h ← number_of row.high
    l ← number_of row.low
    c ← number_of row.close
    if ohlc_ok o h l c then good tt else bad ohlc_invalid

  abbrev pub stamp_of : Candle F → Checked ℕ
  stamp_of row = elim row.timestamp [
    | none ↦ bad timestamp_required
    | some n ↦ if is_positive_stamp n then good n else bad timestamp_required
  ]

  abbrev pub same_interval : Text → Candle F → Checked (Unit {0})
  same_interval timeframe row = elim row.interval [
    | none ↦ good tt
    | some i ↦ if text_eq i timeframe then good tt else bad interval_mismatch
  ]

  -- The checks of one row: its time stamp and its end.
  unfoldable pub checked_row : Text → ℕ → Option ℕ → Candle F → Checked (ℕ × ℕ)
  unfolding checked_prices end_of
  checked_row timeframe duration previous row = do
    stamp ← stamp_of row
    ordered ← in_order previous stamp
    same ← same_interval timeframe row
    end ← end_of timeframe duration stamp row.bar_end
    priced ← checked_prices row
    good (stamp, end)

  unfoldable pub completed_from :
      Text → ℕ → ℕ → Option ℕ → List (Candle F) → Checked (List (Candle F))
  completed_from timeframe duration now previous [] = good []
  completed_from timeframe duration now previous (row ∷ rows) =
      elim (checked_row timeframe duration previous row) [
        | bad e ↦ bad e
        | good (stamp, end) ↦ elim (completed_from timeframe duration now (some stamp) rows) [
          | bad e ↦ bad e
          | good rest ↦ good (if leb end now then row ∷ rest else rest)
        ]
      ]

  -- `limit` is above zero.
  unfoldable pub completed_trading_candles :
      List (Candle F) → Text → ℕ → ℕ → Checked (List (Candle F))
  unfolding completed_from
  completed_trading_candles rows timeframe now limit = elim (interval_ms timeframe) [
    | none ↦ bad interval_unsupported
    | some duration ↦ elim (completed_from timeframe duration now none rows) [
      | bad e ↦ bad e
      | good completed ↦
          if ltb (length completed) 30 then bad insufficient else good (take_last limit completed)
    ]
  ]

  unfoldable pub completed_ibkr_candles :
      Text → List (Candle F) → Text → ℕ → Checked (List (Candle F))
  completed_ibkr_candles actual rows timeframe now =
      if text_eq actual timeframe
      then completed_trading_candles rows timeframe now 200
      else bad timeframe_unverified
