-- ===== src/Ibkr/Evidence.antt =====
-- `execution_fill` of app/services/ibkr_entry_fill.py: one full entry from unique broker
-- executions. Times are milliseconds, as `execution_time_ms` returns them.
pub mod Sound
use atlas_markets.Base.{
  ℕ, ◌+◌, ◌≡◌, refl, Bool, true, false, not, ◌&&◌, ◌||◌, Option, none, some, List, [], ◌∷◌, ◌⊎◌,
  inl, inr, All, leb, ◌==◌, arith, if◌then◌else◌, Option-cases, Bool-cases, map, ltb,
}
use atlas_markets.Base.Text.{Text, codes, text_eq, mem_text, text_eq_refl, text_eq→eq}
use atlas_markets.Base.Float.{Float, Raw, absent, malformed, number}
use atlas_markets.Guard.Symbols.{is_empty}
use atlas_markets.Ibkr.Shares.{parsed, numbers_match}

pub record Execution (F : Type 0) : Type 0 where
  pub order_id : Text
  pub account : Text
  pub execution_id : Text
  pub symbol : Text
  pub side : Text
  pub sec_type : Text
  pub quantity : Raw F
  pub price : Raw F
  pub stamp : ℕ

-- The columns of the entry's action.
pub record Entry (F : Type 0) : Type 0 where
  pub provider : Text
  pub environment : Text
  pub side : Text
  pub symbol : Text
  pub broker_order_id : Text
  pub quantity : Raw F
  pub created_ms : ℕ

-- The value that one execution id stands for.
pub record Deal (F : Type 0) : Type 0 where
  pub quantity : F
  pub price : F
  pub stamp : ℕ

pub record Proof (F : Type 0) : Type 0 where
  pub quantity : F
  pub price : F
  pub deals : List (Text × Deal F)

abbrev pub sides_of : Text → List Text
sides_of side =
    if text_eq side (codes "BUY")
    then codes "BOT" ∷ codes "BUY" ∷ []
    else codes "SLD" ∷ codes "SELL" ∷ []

module _ {F : Type 0} where
  abbrev pub lookup : Text → List (Text × Deal F) → Option (Deal F)
  lookup k [] = none
  lookup k ((j, d) ∷ ds) = if text_eq j k then some d else lookup k ds

module _ {F : Type 0} ⦃fl : Float F⦄ where
  open fl use {num, add, mul, div, lt, le, eq, is_finite}

  abbrev pub is_positive : F → Bool
  is_positive x = is_finite x && lt (num 0 0) x

  -- The row speaks of this order and account.
  unfoldable pub is_own : Entry F → Text → Execution F → Bool
  is_own entry account row =
      text_eq row.order_id entry.broker_order_id && text_eq row.account account

  deal : Entry F → ℕ → Execution F → F → F → Option (Deal F)
  deal entry now row quantity price =
      if is_empty row.execution_id
        || not (text_eq row.symbol entry.symbol)
        || not (mem_text row.side (sides_of entry.side))
        || not (text_eq row.sec_type (codes "STK"))
        || not (leb entry.created_ms (row.stamp + 300_000) && leb row.stamp (now + 300_000))
        || not (is_positive quantity && is_positive price)
      then none
      else some (record { quantity = quantity; price = price; stamp = row.stamp })

  -- The checked value of a row, or none where the whole evidence is refused.
  unfoldable pub deal_of : Entry F → ℕ → Execution F → Option (Deal F)
  unfolding deal
  deal_of entry now row = elim (parsed row.quantity) [
    | none ↦ none
    | some quantity ↦ elim (parsed row.price) [
      | none ↦ none
      | some price ↦ deal entry now row quantity price
    ]
  ]

  abbrev pub same_deal : Deal F → Deal F → Bool
  same_deal d e = eq d.quantity e.quantity && eq d.price e.price && (d.stamp == e.stamp)

  -- `unique[identity] = value`, refused where the identity stands for another value.
  unfoldable pub record_deal : Text → Deal F → List (Text × Deal F) → Option (List (Text × Deal F))
  record_deal id d unique = elim (lookup id unique) [
    | none ↦ some ((id, d) ∷ unique)
    | some e ↦ if same_deal e d then some unique else none
  ]

  unfoldable pub collect :
      Entry F → Text → ℕ → List (Text × Deal F) → List (Execution F) → Option (List (Text × Deal F))
  collect entry account now unique [] = some unique
  collect entry account now unique (row ∷ rows) =
      if is_own entry account row
      then elim (deal_of entry now row) [
        | none ↦ none
        | some d ↦ elim (record_deal row.execution_id d unique) [
          | none ↦ none
          | some more ↦ collect entry account now more rows
        ]
      ]
      else collect entry account now unique rows

  abbrev pub total_quantity : List (Text × Deal F) → F
  total_quantity [] = num 0 0
  total_quantity ((id, d) ∷ ds) = add (total_quantity ds) d.quantity

  abbrev pub total_cost : List (Text × Deal F) → F
  total_cost [] = num 0 0
  total_cost ((id, d) ∷ ds) = add (total_cost ds) (mul d.quantity d.price)

  abbrev no_deals : List (Text × Deal F) → Bool
  no_deals [] = true
  no_deals (d ∷ ds) = false

  conclude : F → List (Text × Deal F) → Option (Proof F)
  conclude expected unique =
      let filled = total_quantity unique in
      let price = div (total_cost unique) filled in
      if no_deals unique || not (numbers_match filled expected)
      then none
      else if not (is_positive price)
      then none
      else some (record { quantity = filled; price = price; deals = unique })

  -- The new deals stand first in `deals`, so that the totals add them in the order of the rows.
  unfoldable pub execution_fill : Entry F → List (Execution F) → Text → ℕ → Option (Proof F)
  unfolding collect conclude
  execution_fill entry executions account now =
      if is_empty account
        || not (text_eq entry.provider (codes "IBKR"))
        || not (text_eq entry.environment (codes "PAPER"))
        || not (mem_text entry.side (codes "BUY" ∷ codes "SELL" ∷ []))
        || is_empty entry.broker_order_id
      then none
      else elim (parsed entry.quantity) [
        | none ↦ none
        | some expected ↦
            if not (is_positive expected)
            then none
            else elim (collect entry account now [] executions) [
              | none ↦ none
              | some unique ↦ conclude expected unique
            ]
      ]

  -- No execution id is counted twice.
  abbrev pub IsUnique : List (Text × Deal F) → Type 0
  IsUnique [] = Unit
  IsUnique ((id, d) ∷ ds) = (lookup id ds ≡ none) × IsUnique ds

  -- The row is another order's or account's, or it passed the checks and its execution id stands
  -- for its value.
  abbrev pub IsCounted : Entry F → Text → ℕ → List (Text × Deal F) → Execution F → Type 0
  IsCounted entry account now unique row =
      (is_own entry account row ≡ false)
      ⊎ ((d : Deal F) × (e : Deal F) × (deal_of entry now row ≡ some d)
          × (lookup row.execution_id unique ≡ some e)
          × ((e ≡ d) ⊎ (same_deal e d ≡ true)))

  -- A row of this order and account that passed the checks has this id and this value.
  abbrev pub IsSource : Entry F → Text → ℕ → Text → Deal F → Execution F → Type 0
  IsSource entry account now id d row =
      (text_eq row.order_id entry.broker_order_id ≡ true)
      × (text_eq row.account account ≡ true)
      × (row.execution_id ≡ id)
      × (deal_of entry now row ≡ some d)
