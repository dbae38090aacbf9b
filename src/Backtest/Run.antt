-- ===== src/Backtest/Run.antt =====
-- The run of `simulate` over a history of bars.
use atlas_markets.Base.{
  ℕ, ◌+◌, ◌-◌, ◌≤◌, ◌<◌, ◌≡◌, refl, true, false, ◌&&◌, Option, none, some, List, [], ◌∷◌, drop,
  length, length-drop, arith,
}
use atlas_markets.Base.Float.{Float, IsOrdered, HasSigns}
use atlas_markets.Base.Float.Order.{le_refl}
use atlas_markets.Backtest.{Signal, Bar, Rules, Book}
use atlas_markets.Backtest.Steps.{or_raise_with, bars_from, initial, last_marked, paired, simulate}
use atlas_markets.Backtest.Sequence.{Gives, is_missing, is_empty, IsHistory}
use atlas_markets.Backtest.Total.{Inv, bars_from-Gives, zero_apart}

length-paired :
    {A B : Type 0} (xs : List A) (ys : List B)
    → length xs ≤ length ys
    → length (paired xs ys) ≡ length xs
length-paired [] ys h = refl
length-paired (x ∷ xs) [] h = omega (arith, h)
length-paired (x ∷ xs) (y ∷ ys) h = omega (arith, length-paired xs ys (omega (arith, h)))

positive-is_empty : {A : Type 0} (xs : List A) → 1 ≤ length xs → is_empty xs ≡ false
positive-is_empty [] h = ground arith
positive-is_empty (x ∷ xs) h = refl

last_marked-Gives :
    {F : Type 0} (P : Book F → Type 0) (o : Option (Book F))
    → Gives (λ book. P book × (is_empty book.curve ≡ false)) o
    → (book : Book F) × (equity : F) × (or_raise_with o (λ b. last_marked b b.curve)
        ≡ some (book, equity))
      × P book
last_marked-Gives P (some book) (p, curve) = go book.curve curve
  where
    go :
        (curve : List _)
        → is_empty curve ≡ false
        → (after : Book _) × (equity : _) × (last_marked book curve ≡ some (after, equity))
          × P after
    go [] h = cc
    go (equity ∷ rest) h = (book, equity, refl, p)
last_marked-Gives P none gives = elim gives [ ]

module _ {F : Type 0} ⦃fl : Float F⦄ (order : IsOrdered F) (signs : HasSigns F) where
  open fl use {num, lt, le, eq, is_finite}

  -- For a finite capital above zero, a finite lot step above zero, rows that reach beyond a start
  -- above zero, and a signal for each row: the simulation raises no error, where rounding a size to
  -- whole lots raises none at such a step. Its trades follow one another from the start to the last
  -- row, each left at or after its entry and before the next entry; a position that is still open was
  -- entered after the last trade, and a quantity above zero has its entry.
  pub simulate-IsHistory :
      (round_down : F → F → Option F) (rows : List (Bar F)) (signals : List (Option (Signal F)))
      (start : ℕ) (rules : Rules F) (capital slip_bps : F)
      → ((x y : F) → eq x y ≡ true → le x y ≡ true)
      → ((units step : F)
          → lt (num 0 0) step ≡ true
          → is_finite step ≡ true
          → (r : F) × (round_down units step ≡ some r))
      → lt (num 0 0) rules.step ≡ true
      → is_finite rules.step ≡ true
      → lt (num 0 0) capital ≡ true
      → is_finite capital ≡ true
      → 1 ≤ start
      → start < length rows
      → length signals ≡ length rows
      → (book : Book F) × (equity : F) × (simulate round_down rows signals start rules capital
            slip_bps
          ≡ some (book, equity))
        × IsHistory start (length rows) book.entry book.trades
        × (lt (num 0 0) book.qty && is_missing book.entry ≡ false)
  unfolding simulate
  simulate-IsHistory round_down rows signals start rules capital slip_bps eq_le rounds wide step
        above finite positive inside_rows one_each =
      let slip = fl.div slip_bps (num 10000 0) in
      let lots : (u : F) → (r : F) × (round_down u rules.step ≡ some r) =
        λ u. rounds u rules.step wide step in
      let bars = paired (drop start rows) (drop (start - 1) signals) in
      let count : length bars ≡ length rows - start = omega (
        arith,
        length-paired (drop start rows) (drop (start - 1) signals) (
            omega
              (arith, length-drop start rows, length-drop (start - 1) signals, one_each, positive)),
        length-drop start rows,
      ) in
      let run =
        bars_from-Gives round_down rules slip order signs start capital lots above eq_le
          (initial capital) start bars (omega arith)
          (
            tt,
            rw (zero_apart round_down rules slip order signs start capital lots) refl,
            le_refl order capital finite,
          )
          (positive-is_empty bars (omega (arith, count, inside_rows))) in
      let (book, equity, ends, (history, covered, peak)) =
        last_marked-Gives (Inv start capital (start + length bars))
          (bars_from round_down rules slip (initial capital) start bars) run in
      let end : start + length bars ≡ length rows = omega (arith, count, inside_rows) in
      (book, equity, ends, rw (end) at history, covered)
