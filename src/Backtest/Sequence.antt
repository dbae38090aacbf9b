-- ===== src/Backtest/Sequence.antt =====
-- What a history of trades is, and results that are there.
use atlas_markets.Base.{ℕ, ◌≤◌, ◌<◌, Bool, true, false, Option, none, some, List, [], ◌∷◌, arith}
use atlas_markets.Backtest.{Position, Trade}
use atlas_markets.Backtest.Steps.{or_raise_with}

-- A result, with what it has.
abbrev pub Gives : {A : Type 0} → (A → Type 0) → Option A → Type 0
Gives P none = ⊥
Gives P (some a) = P a

pub Gives-bind :
    {A B : Type 0} (P : A → Type 0) (Q : B → Type 0) (o : Option A) (f : A → Option B)
    → Gives P o
    → ((a : A) → P a → Gives Q (f a))
    → Gives Q (or_raise_with o f)
Gives-bind P Q (some a) f p step = step a p
Gives-bind P Q none f p step = elim p [ ]

abbrev pub is_missing : {A : Type 0} → Option A → Bool
is_missing none = true
is_missing (some a) = false

abbrev pub is_empty : {A : Type 0} → List A → Bool
is_empty [] = true
is_empty (a ∷ rest) = false

-- The trades, the latest first: each is entered at or after the start, left at or after its entry,
-- before the given bar, and entered after the one before it was left.
abbrev pub IsSequence : {F : Type 0} → ℕ → ℕ → List (Trade F) → Type 0
IsSequence start end [] = Unit
IsSequence start end (trade ∷ trades) =
    (start ≤ trade.entry.index)
    × (trade.entry.index ≤ trade.exit_index)
    × (trade.exit_index < end)
    × IsSequence start trade.entry.index trades

-- With the position that is open, when there is one
abbrev pub IsHistory : {F : Type 0} → ℕ → ℕ → Option (Position F) → List (Trade F) → Type 0
IsHistory start end none trades = IsSequence start end trades
IsHistory start end (some entry) trades =
    (start ≤ entry.index) × (entry.index < end) × IsSequence start entry.index trades

pub IsSequence-later :
    {F : Type 0} (start end later : ℕ) (trades : List (Trade F))
    → end ≤ later
    → IsSequence start end trades
    → IsSequence start later trades
IsSequence-later start end later [] le s = tt
IsSequence-later start end later (trade ∷ trades) le (a, b, c, rest) = (a, b, omega arith, rest)

pub IsHistory-later :
    {F : Type 0} (start end later : ℕ) (entry : Option (Position F)) (trades : List (Trade F))
    → end ≤ later
    → IsHistory start end entry trades
    → IsHistory start later entry trades
IsHistory-later start end later none trades le h = IsSequence-later start end later trades le h
IsHistory-later start end later (some entry) trades le (a, b, s) = (a, omega arith, s)

pub IsHistory-closed :
    {F : Type 0} (start end : ℕ) (entry : Option (Position F)) (trades : List (Trade F))
    → IsHistory start end entry trades
    → IsSequence start end trades
IsHistory-closed start end none trades h = h
IsHistory-closed start end (some entry) trades (a, b, s) =
    IsSequence-later start entry.index end trades (omega arith) s
