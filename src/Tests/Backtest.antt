-- ===== src/Tests/Backtest.antt =====
-- A run of the simulation on exact decimals.
use atlas_markets.Base.{
  ℕ, ◌≡◌, ◌&&◌, refl, true, false, if◌then◌else◌, Option, none, some, List, [], ◌∷◌, map, length,
  arith,
}
use atlas_markets.Base.Float.Fixed.{Fixed, fixed_float, Fixed-IsOrdered, Fixed-HasSigns, whole_part}
use atlas_markets.Base.Int.{◌*ℤ◌, ◌+ℤ◌, ◌-ℤ◌}
use atlas_markets.Backtest.{buy_signal, Signal, Bar, Rules, target, Book}
use atlas_markets.Backtest.Steps.{simulate}
use atlas_markets.Backtest.Sequence.{is_missing, IsHistory}
use atlas_markets.Backtest.Run.{simulate-IsHistory}

abbrev dec : ℕ → ℕ → Fixed
dec = fixed_float.num

-- A division by zero raises.
abbrev to_lot : Fixed → Fixed → Option Fixed
to_lot units step =
    if fixed_float.eq step (dec 0 0)
    then none
    else some (fixed_float.mul (whole_part (fixed_float.div units step)) step)

to_lot-some :
    (units step : Fixed)
    → fixed_float.lt (dec 0 0) step ≡ true
    → fixed_float.is_finite step ≡ true
    → (r : Fixed) × (to_lot units step ≡ some r)
to_lot-some units step h finite =
    (fixed_float.mul (whole_part (fixed_float.div units step)) step, ground arith)

abbrev bar : ℕ → ℕ → ℕ → ℕ → ℕ → Bar Fixed
bar time opening high low closing = record {
  time = time;
  opening = dec opening 0;
  high = dec high 0;
  low = dec low 0;
  closing = dec closing 0;
}

abbrev rows : List (Bar Fixed)
rows =
    bar 0 100 101 99 100
    ∷ bar 5 100 104 98 103
    ∷ bar 10 103 120 102 110
    ∷ bar 15 110 111 109 110
    ∷ []

abbrev signals : List (Option (Signal Fixed))
signals =
    some (record { side = buy_signal; atr = some (dec 2 0) })
    ∷ none
    ∷ some (record { side = buy_signal; atr = none })
    ∷ none
    ∷ []

abbrev rules : Rules Fixed
rules = record {
  minimum_notional = dec 5 0;
  minimum_quantity = dec 1 3;
  maximum_quantity = dec 1000 0;
  step = dec 1 3;
}

-- One trade, entered at bar 1 and left at its target in bar 2; the signal without a distance is
-- counted.
one_trade :
    (book : Book Fixed) × (equity : Fixed) × (simulate to_lot rows signals 1 rules
        (dec 100 0)
        (dec 2 0)
      ≡ some (book, equity))
    × (map (λ t. t.exit_reason) book.trades ≡ target ∷ [])
    × (map (λ t. t.exit_index) book.trades ≡ 2 ∷ [])
    × (book.blockers.invalid_stop_distance ≡ 1)
    × (length book.curve ≡ 3)
unfolding simulate ◌*ℤ◌ ◌+ℤ◌ ◌-ℤ◌
one_trade = (_, _, refl, refl, refl, refl, refl)

simulate-IsHistory_example :
    (book : Book Fixed) × (equity : Fixed) × (simulate to_lot rows signals 1 rules
        (dec 100 0)
        (dec 2 0)
      ≡ some (book, equity))
    × IsHistory 1 4 book.entry book.trades
    × (fixed_float.lt (dec 0 0) book.qty && is_missing book.entry ≡ false)
simulate-IsHistory_example =
    simulate-IsHistory Fixed-IsOrdered Fixed-HasSigns to_lot rows signals 1 rules (dec 100 0)
      (dec 2 0) (λ x y h. ground arith) to_lot-some refl refl refl refl (omega arith) (omega arith)
      refl

-- A lot step of zero raises as soon as an entry is sized.
zero_step :
    simulate to_lot rows signals 1 (record rules { step = dec 0 0 }) (dec 100 0) (dec 2 0) ≡ none
unfolding simulate ◌*ℤ◌ ◌+ℤ◌ ◌-ℤ◌
zero_step = refl
