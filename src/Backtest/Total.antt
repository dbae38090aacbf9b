-- ===== src/Backtest/Total.antt =====
-- A run of `simulate` ends without an error, and its trades follow one another.
use atlas_markets.Base.{
  ◌+◌, ℕ, suc, ◌≤◌, ◌≡◌, refl, Bool, true, false, not, ◌&&◌, Option, none, some, List, [], ◌∷◌,
  length, arith, Bool-cases, Option-cases, inl, inr, if_either,
}
use atlas_markets.Base.Float.{Float, fmax, IsOrdered, HasSigns}
use atlas_markets.Backtest.{Signal, Bar, Rules, Position, Reason, entry_gap_stop, Book}
use atlas_markets.Backtest.Steps.{
  is_buy, booked, too_small, close, opening_exit, leave_opening, leave_inside, exit_at_opening,
  distance_of, units_of, opened, bad_distance, entry_refused, enter_with, enter, on_signal,
  at_opening, inside_exit, exit_inside, inside, marked, bar_step, bars_from,
}
use atlas_markets.Backtest.Sequence.{
  Gives, Gives-bind, is_missing, is_empty, IsHistory, IsHistory-later, IsHistory-closed,
}

module _ {F : Type 0} ⦃fl : Float F⦄ (start : ℕ) (capital : F) where
  open fl use {num, lt, le, eq}

  -- A quantity above zero has its entry, and the peak is not below the capital.
  abbrev pub Inv : ℕ → Book F → Type 0
  Inv i book =
      IsHistory start i book.entry book.trades
      × (lt (num 0 0) book.qty && is_missing book.entry ≡ false)
      × (le capital book.peak ≡ true)

module _ {F : Type 0} ⦃fl : Float F⦄ (round_down : F → F → Option F) (rules : Rules F) (slip : F)
    (order : IsOrdered F) (signs : HasSigns F) (start : ℕ) (capital : F)
    (lots : (u : F) → (r : F) × (round_down u rules.step ≡ some r)) where
  open fl use {num, sub, add, mul, lt, le, eq}

  pub zero_apart : lt (num 0 0) (num 0 0) ≡ false
  zero_apart = elim (Bool-cases (lt (num 0 0) (num 0 0))) [
    | inr apart ↦ apart
    | inl below ↦
        let above = order.not_both (num 0 0) (num 0 0) below in let self = signs.zero_refl in cc
  ]

  close-Gives :
      (book : Book F) (i : ℕ) (bar : Bar F) (reference : F) (reason : Reason) {entry : Position F}
      → book.entry ≡ some entry
      → Inv start capital (suc i) book
      → Gives (Inv start capital (suc i)) (close round_down rules slip book i bar reference reason)
  unfolding close booked
  close-Gives book i bar reference reason {entry} held (history, covered, peak) =
      let price = mul reference (sub (num 1 0) slip) in
      let before : IsHistory start (suc i) (some entry) book.trades = rw held at history in
      let (a, b, s) = before in
      elim (Bool-cases (too_small round_down rules slip book price)) [
        | inl small ↦ rw (small, close) (history, covered, peak)
        | inr sold ↦
            rw (sold, held, close) ((a, omega arith, omega arith, s), rw (zero_apart) refl, peak)
      ]

  held-entry :
      (book : Book F)
      → lt (num 0 0) book.qty ≡ true
      → lt (num 0 0) book.qty && is_missing book.entry ≡ false
      → (entry : Position F) × (book.entry ≡ some entry)
  held-entry book held covered = elim (Option-cases book.entry) [
    | inl missing ↦ let impossible : true ≡ false = rw (held, missing) at covered in cc
    | inr found ↦ found
  ]

  leave_opening-Gives :
      (book : Book F) (i : ℕ) (bar : Bar F) (exit : Option (Reason × F)) {entry : Position F}
      → book.entry ≡ some entry
      → Inv start capital (suc i) book
      → Gives
          (λ (next, attempted). Inv start capital (suc i) next)
          (leave_opening round_down rules slip book i bar exit)
  unfolding leave_opening
  leave_opening-Gives book i bar none e inv = inv
  leave_opening-Gives book i bar (some (reason, trigger)) e inv =
      Gives-bind (Inv start capital (suc i)) (λ (next, attempted). Inv start capital (suc i) next)
        (close round_down rules slip book i bar trigger reason) (λ next. some (next, true))
        (close-Gives book i bar trigger reason e inv) (λ next after. after)

  leave_inside-Gives :
      (book : Book F) (i : ℕ) (bar : Bar F) (exit : Option (Reason × F)) {entry : Position F}
      → book.entry ≡ some entry
      → Inv start capital (suc i) book
      → Gives (Inv start capital (suc i)) (leave_inside round_down rules slip book i bar exit)
  unfolding leave_inside
  leave_inside-Gives book i bar none e inv = inv
  leave_inside-Gives book i bar (some (reason, trigger)) e inv =
      close-Gives book i bar trigger reason e inv

  units_of-some :
      (book : Book F) (price distance : F)
      → (units : F) × (units_of round_down rules slip book price distance ≡ some units)
  unfolding units_of
  units_of-some book price distance = lots _

  enter_with-Gives :
      (book : Book F) (i : ℕ) (bar : Bar F) (signal : Signal F) (price distance units : F)
      → start ≤ i
      → Inv start capital i book
      → Gives
          (λ (next, attempted). Inv start capital (suc i) next)
          (enter_with round_down rules slip book i bar signal price distance units)
  unfolding enter_with opened
  enter_with-Gives book i bar signal price distance units begun (history, covered, peak) =
      let next = opened round_down rules slip book i bar signal price distance units in
      let kept = IsHistory-later start i (suc i) book.entry book.trades (omega arith) history in
      let sequence = IsHistory-closed start i book.entry book.trades history in
      let fresh : Inv start capital (suc i) next =
        ((begun, omega arith, sequence), ground arith, peak) in
      elim (Bool-cases (entry_refused round_down rules slip book price units)) [
        | inl small ↦ rw (small, enter_with) (kept, covered, peak)
        | inr fits ↦ elim (Bool-cases (le bar.opening (sub price distance))) [
          | inl gap ↦
              rw (fits, gap, enter_with)
                (Gives-bind (Inv start capital (suc i))
                  (λ (after, attempted). Inv start capital (suc i) after)
                  (close round_down rules slip next i bar bar.opening entry_gap_stop)
                  (λ after. some (after, true))
                  (close-Gives next i bar bar.opening entry_gap_stop refl fresh) (λ after inv. inv))
          | inr above ↦ rw (fits, above, enter_with) fresh
        ]
      ]

  enter-Gives :
      (book : Book F) (i : ℕ) (bar : Bar F) (signal : Signal F)
      → start ≤ i
      → Inv start capital i book
      → Gives
          (λ (next, attempted). Inv start capital (suc i) next)
          (enter round_down rules slip book i bar signal)
  unfolding enter
  enter-Gives book i bar signal begun (history, covered, peak) =
      let price = mul bar.opening (add (num 1 0) slip) in
      let distance = distance_of round_down rules slip signal in
      let kept = IsHistory-later start i (suc i) book.entry book.trades (omega arith) history in
      elim (Bool-cases (bad_distance round_down rules slip price distance)) [
        | inl bad ↦ rw (bad, enter) (kept, covered, peak)
        | inr good ↦
            let (units, e) = units_of-some book price distance in
            rw (good, e, enter)
              (enter_with-Gives book i bar signal price distance units begun
                (history, covered, peak))
      ]

  on_signal-Gives :
      (book : Book F) (i : ℕ) (bar : Bar F) (signal : Option (Signal F))
      → start ≤ i
      → Inv start capital i book
      → Gives
          (λ (next, attempted). Inv start capital (suc i) next)
          (on_signal round_down rules slip book i bar signal)
  on_signal-Gives book i bar none begun (history, covered, peak) =
      (IsHistory-later start i (suc i) book.entry book.trades (omega arith) history, covered, peak)
  on_signal-Gives book i bar (some s) begun (history, covered, peak) =
      if_either (Gives {A = Book F × Bool} (λ (next, attempted). Inv start capital (suc i) next))
        (is_buy s.side) (enter round_down rules slip book i bar s) (some (book, false))
        (λ buys. enter-Gives book i bar s begun (history, covered, peak))
        (λ waits. (
          IsHistory-later start i (suc i) book.entry book.trades (omega arith) history,
          covered,
          peak,
        ))

  at_opening-Gives :
      (book : Book F) (i : ℕ) (bar : Bar F) (signal : Option (Signal F))
      → start ≤ i
      → Inv start capital i book
      → Gives
          (λ (next, attempted). Inv start capital (suc i) next)
          (at_opening round_down rules slip book i bar signal)
  unfolding exit_at_opening
  at_opening-Gives book i bar signal begun (history, covered, peak) =
      let kept = IsHistory-later start i (suc i) book.entry book.trades (omega arith) history in
      elim (Bool-cases (lt (num 0 0) book.qty)) [
        | inl held ↦
            let (entry, e) = held-entry book held covered in
            rw (held, e, exit_at_opening)
              (leave_opening-Gives book i bar (opening_exit round_down rules slip entry bar signal)
                e (kept, covered, peak))
        | inr free ↦ rw (free) (on_signal-Gives book i bar signal begun (history, covered, peak))
      ]

  inside-Gives :
      (book : Book F) (attempted : Bool) (i : ℕ) (bar : Bar F)
      → Inv start capital (suc i) book
      → Gives (Inv start capital (suc i)) (inside round_down rules slip book attempted i bar)
  unfolding exit_inside
  inside-Gives book attempted i bar inv =
      if_either (Gives (Inv start capital (suc i))) (lt (num 0 0) book.qty && not attempted)
        (exit_inside round_down rules slip book i bar) (some book) exits (λ stays. inv)
    where
      exits :
          lt (num 0 0) book.qty && not attempted ≡ true
          → Gives (Inv start capital (suc i)) (exit_inside round_down rules slip book i bar)
      exits h =
          let (entry, e) = held-entry book (ground arith) inv.1 in
          rw (e, exit_inside)
            (leave_inside-Gives book i bar (inside_exit round_down rules slip entry bar) e inv)

  fmax-above : (x y : F) → le capital x ≡ true → le capital (fmax x y) ≡ true
  fmax-above x y h =
      if_either (λ z. le capital z ≡ true) (lt x y) y x
        (λ above. order.le_trans capital x y h (order.le_of_lt x y above)) (λ below. h)

  marked-Gives :
      (book : Book F) (i : ℕ) (bar : Bar F)
      → lt (num 0 0) capital ≡ true
      → ((x y : F) → eq x y ≡ true → le x y ≡ true)
      → Inv start capital i book
      → Gives
          (λ next. Inv start capital i next × (is_empty next.curve ≡ false))
          (marked round_down rules slip book bar)
  unfolding marked
  marked-Gives book i bar above eq_le (history, covered, peak) =
      let top = fmax book.peak (add book.cash (mul book.qty bar.closing)) in
      let high = fmax-above book.peak (add book.cash (mul book.qty bar.closing)) peak in
      elim (Bool-cases (eq top (num 0 0))) [
        | inl flat ↦
            let low = order.le_trans capital top (num 0 0) high (eq_le top (num 0 0) flat) in
            let apart = order.not_both (num 0 0) capital above in cc
        | inr apart ↦ rw (apart, marked) ((history, covered, high), refl)
      ]

  module _ (above : lt (num 0 0) capital ≡ true)
      (eq_le : (x y : F) → eq x y ≡ true → le x y ≡ true) where
    bar_step-Gives :
        (book : Book F) (i : ℕ) (bar : Bar F) (signal : Option (Signal F))
        → start ≤ i
        → Inv start capital i book
        → Gives
            (λ next. Inv start capital (suc i) next × (is_empty next.curve ≡ false))
            (bar_step round_down rules slip book i bar signal)
    unfolding bar_step
    bar_step-Gives book i bar signal begun inv =
        Gives-bind (λ (next, attempted). Inv start capital (suc i) next)
          (λ next. Inv start capital (suc i) next × (is_empty next.curve ≡ false))
          (at_opening round_down rules slip book i bar signal) _
          (at_opening-Gives book i bar signal begun inv)
          (λ (next, attempted) after.
            Gives-bind (Inv start capital (suc i))
              (λ last. Inv start capital (suc i) last × (is_empty last.curve ≡ false))
              (inside round_down rules slip next attempted i bar) _
              (inside-Gives next attempted i bar after)
              (λ closed left. marked-Gives closed (suc i) bar above eq_le left))

    pub bars_from-Gives :
        (book : Book F) (i : ℕ) (bars : List (Bar F × Option (Signal F)))
        → start ≤ i
        → Inv start capital i book
        → is_empty book.curve && is_empty bars ≡ false
        → Gives
            (λ next. Inv start capital (i + length bars) next × (is_empty next.curve ≡ false))
            (bars_from round_down rules slip book i bars)
    unfolding bars_from
    bars_from-Gives book i [] begun (history, covered, peak) some_curve =
        let same : i + 0 ≡ i = omega arith in ((rw (same) history, covered, peak), ground arith)
    bars_from-Gives book i ((bar, signal) ∷ rest) begun inv some_bar =
        Gives-bind (λ next. Inv start capital (suc i) next × (is_empty next.curve ≡ false)) _
          (bar_step round_down rules slip book i bar signal) _
          (bar_step-Gives book i bar signal begun inv)
          (λ next (after, curve).
            let same : i + suc (length rest) ≡ suc i + length rest = omega arith in
            rw (same) (bars_from-Gives next (suc i) rest (omega arith) after (ground arith)))
