-- ===== src/Candles/Sound.antt =====
-- What the rows that `completed_trading_candles` returns have passed.
use atlas_markets.Base.{
  ℕ, ◌≤◌, ◌<◌, ◌≡◌, refl, true, Option, none, some, List, [], ◌∷◌, ◌⊎◌, inl, inr,
}
use atlas_markets.Base.Text.{Text}
use atlas_markets.Base.Float.{Float}
use atlas_markets.Ibkr.Shares.{parsed}
use atlas_markets.Candles.{CandleError, Checked, good, bad, Candle, end_of, ohlc_ok, ◌>>=◌}

pub Checked-cases :
    {A : Type 0} (c : Checked A) → ((e : CandleError) × (c ≡ bad e)) ⊎ ((a : A) × (c ≡ good a))
Checked-cases (good a) = inr (a, refl)
Checked-cases (bad e) = inl (e, refl)

pub bind-good :
    {A B : Type 0} (c : Checked A) (f : A → Checked B) {b : B}
    → c >>= f ≡ good b
    → (a : A) × (c ≡ good a) × (f a ≡ good b)
bind-good (good a) f h = (a, refl, h)
bind-good (bad e) f h = cc

abbrev floor : Option ℕ → ℕ
floor none = 0
floor (some n) = n

module _ {F : Type 0} ⦃fl : Float F⦄ (timeframe : Text) (duration : ℕ) (now : ℕ) where
  -- A row at a time stamp that is over: its end fits its length and is not after now, and its
  -- prices are finite, above zero, and ordered as low, open and close, high.
  pub record IsOver (stamp : ℕ) (row : Candle F) : Type 0 where
    pub stamped : row.timestamp ≡ some stamp
    pub ends : (e : ℕ) × (end_of timeframe duration stamp row.bar_end ≡ good e) × (e ≤ now)
    pub prices :
        (o h l c : F) × (parsed row.open_price ≡ some o)
        × (parsed row.high ≡ some h)
        × (parsed row.low ≡ some l)
        × (parsed row.close ≡ some c)
        × (ohlc_ok o h l c ≡ true)

  -- The rows are over, with time stamps that rise strictly from `floor`.
  abbrev pub IsRising : ℕ → List (Candle F) → Type 0
  IsRising floor [] = Unit
  IsRising floor (row ∷ rows) =
      (stamp : ℕ) × (floor < stamp) × IsOver stamp row × IsRising stamp rows
