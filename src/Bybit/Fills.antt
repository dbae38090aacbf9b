-- ===== src/Bybit/Fills.antt =====
-- The evidence that app/services/bybit_spot_execution.py reads from the order history and the
-- wallet: `_matching_history_row`, `_zero_fill_cancellation`, `_verify_spot_fill`,
-- `_fill_quantity`, `_fill_price`, `_base_coin`, `_wallet_coin_quantity`.
pub mod Evidence
use atlas_markets.Base.{
  ◌≡◌, refl, ◌⊎◌, inl, inr, ℕ, zero, suc, ◌+◌, ◌-◌, Bool, true, false, not, ◌&&◌, ◌||◌, Option,
  none, some, List, [], ◌∷◌, length, take, find, ltb, reverse, if◌then◌else◌,
}
use atlas_markets.Base.Text.{Text, codes, text_eq, mem_text, upper, starts_with}
use atlas_markets.Base.Float.{Float, Raw, absent, malformed, number, fmax}
use atlas_markets.Guard.Symbols.{canonical_symbol, is_empty, add_symbol}

-- An order of the exchange's history. A missing text is empty; the link may be missing or null.
-- `filled_decimal` is `cumExecQty` as `Decimal(str(...))` reads it, where a missing or empty value
-- is an error; the other numbers are read by `float(... or 0)`.
pub record HistoryRow (F D : Type 0) : Type 0 where
  pub order_id : Text
  pub order_link_id : Option Text
  pub symbol : Text
  pub side : Text
  pub order_status : Text
  pub filled_decimal : Raw D
  pub cum_exec_qty : Raw F
  pub exec_qty : Raw F
  pub qty : Raw F
  pub avg_price : Raw F
  pub price : Raw F

abbrev pub text_or_empty : Option Text → Text
text_or_empty none = []
text_or_empty (some t) = t

abbrev pub filled_statuses : List Text
filled_statuses = codes "FILLED" ∷ codes "PARTIALLYFILLED" ∷ []

module _ {F D : Type 0} where
  unfoldable pub is_filled_order : Text → HistoryRow F D → Bool
  is_filled_order link row =
      text_eq (text_or_empty row.order_link_id) link
      && mem_text (upper row.order_status) filled_statuses

  unfoldable pub matching_history_row : List (HistoryRow F D) → Text → Option (HistoryRow F D)
  unfolding is_filled_order
  matching_history_row history link = find (is_filled_order link) history

-- An identifier that is given is the row's; an empty one counts as none.
abbrev pub same_order_id : Text → Text → Bool
same_order_id id row_id = is_empty id || text_eq row_id id

abbrev pub same_link : Text → Option Text → Bool
same_link link none = is_empty link
same_link link (some l) = is_empty link || text_eq l link

module _ {D : Type 0} ⦃dl : Float D⦄ where
  open dl use {num, eq, is_finite}

  -- The filled quantity is there, finite and zero.
  abbrev pub is_zero_decimal : Raw D → Bool
  is_zero_decimal absent = false
  is_zero_decimal malformed = false
  is_zero_decimal (number x) = is_finite x && eq x (num 0 0)

module _ {F D : Type 0} ⦃dl : Float D⦄ where
  unfoldable pub zero_fill_cancellation : HistoryRow F D → Text → Text → Text → Text → Bool
  zero_fill_cancellation row symbol side order_id link =
      if is_empty order_id && is_empty link
      then false
      else if not (same_order_id order_id row.order_id)
      then false
      else if not (same_link link row.order_link_id)
      then false
      else if not (text_eq (canonical_symbol row.symbol) (canonical_symbol symbol))
      then false
      else if not (text_eq (upper row.side) (upper side))
      then false
      else if not (text_eq (upper row.order_status) (codes "CANCELLED"))
      then false
      else is_zero_decimal row.filled_decimal

  -- What one read of the history tells about a link: a fill, or else a cancellation.
  unfoldable pub history_evidence : Text → List (HistoryRow F D) → Option (HistoryRow F D)
  history_evidence link history = elim (matching_history_row history link) [
    | some row ↦ some row
    | none ↦ find (λ row. zero_fill_cancellation row row.symbol row.side [] link) history
  ]

-- The outcome of the reads: the call of the exchange raised, none told anything, or a row did.
pub data Verified (F D : Type 0) : Type 0 where
  read_failed : Verified F D
  unconfirmed : Verified F D
  confirmed : HistoryRow F D → Verified F D

pub Verified-cases :
    {F D : Type 0} (v : Verified F D)
    → (v ≡ read_failed) ⊎ (v ≡ unconfirmed) ⊎ ((row : HistoryRow F D) × (v ≡ confirmed row))
Verified-cases read_failed = inl refl
Verified-cases unconfirmed = inr (inl refl)
Verified-cases (confirmed row) = inr (inr (row, refl))

abbrev pub fill_verify_attempts : ℕ
fill_verify_attempts = 6

module _ {F D : Type 0} ⦃dl : Float D⦄ where
  -- `reads k` is what the k-th read of the history returns, `none` if it raises; `attempt` is the
  -- next read and the first argument the reads that are left.
  unfoldable pub verify_from : ℕ → ℕ → (ℕ → Option (List (HistoryRow F D))) → Text → Verified F D
  verify_from zero attempt reads link = unconfirmed
  verify_from (suc left) attempt reads link = elim (reads attempt) [
    | none ↦ read_failed
    | some history ↦ elim (history_evidence link history) [
      | some row ↦ confirmed row
      | none ↦ verify_from left (attempt + 1) reads link
    ]
  ]

  unfoldable pub verify_spot_fill : (ℕ → Option (List (HistoryRow F D))) → Text → Verified F D
  unfolding verify_from
  verify_spot_fill reads link = verify_from fill_verify_attempts 0 reads link

module _ {F : Type 0} ⦃fl : Float F⦄ where
  open fl use {num, lt}

  -- `float(row.get(key) or 0)`, with a failed conversion read as 0, where it is above 0
  abbrev pub positive_number : Raw F → Option F
  positive_number absent = none
  positive_number malformed = none
  positive_number (number x) = if lt (num 0 0) x then some x else none

  abbrev pub first_positive : List (Raw F) → Option F
  first_positive [] = none
  first_positive (r ∷ rs) = elim (positive_number r) [ some x ↦ some x | none ↦ first_positive rs ]

module _ {F D : Type 0} ⦃fl : Float F⦄ where
  unfoldable pub fill_quantity : HistoryRow F D → F → F
  fill_quantity row fallback =
      elim (first_positive (row.cum_exec_qty ∷ row.exec_qty ∷ row.qty ∷ [])) [
        | some x ↦ x
        | none ↦ fallback
      ]

  unfoldable pub fill_price : HistoryRow F D → Option F
  fill_price row = first_positive (row.avg_price ∷ row.price ∷ [])

abbrev ends_with : Text → Text → Bool
ends_with quote symbol = starts_with (reverse quote) (reverse symbol)

base_of : Text → List Text → Option Text
base_of symbol [] = none
base_of symbol (quote ∷ quotes) =
    if ends_with quote symbol && ltb (length quote) (length symbol)
    then some (take (length symbol - length quote) symbol)
    else base_of symbol quotes

-- `none` is the ValueError of an unsupported quote.
unfoldable pub base_coin : Text → Option Text
unfolding base_of
base_coin symbol =
    base_of (canonical_symbol symbol) (codes "USDT" ∷ codes "USDC" ∷ codes "USD" ∷ [])

-- A coin of the first wallet row.
pub record Coin (F : Type 0) : Type 0 where
  pub coin : Text
  pub wallet_balance : Raw F

module _ {F : Type 0} ⦃fl : Float F⦄ where
  open fl use {num}

  abbrev pub balance : Raw F → F
  balance absent = fmax (num 0 0) (num 0 0)
  balance malformed = num 0 0
  balance (number x) = fmax (num 0 0) x

  unfoldable pub wallet_coin_quantity : List (Coin F) → Text → F
  wallet_coin_quantity [] coin = num 0 0
  wallet_coin_quantity (row ∷ rows) coin =
      if text_eq (upper row.coin) (upper coin)
      then balance row.wallet_balance
      else wallet_coin_quantity rows coin
