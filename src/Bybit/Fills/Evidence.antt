-- ===== src/Bybit/Fills/Evidence.antt =====
-- What the evidence proves: the row that confirms an order carries the order's link, and is a
-- fill or a cancellation of which nothing was filled.
use atlas_markets.Base.{
  ℕ, zero, suc, ◌+◌, ◌≡◌, true, false, Option, some, List, [], ◌⊎◌, inl, inr, find, find-holds,
  Option-cases, arith,
}
use atlas_markets.Base.Text.{Text, codes, text_eq, mem_text, upper}
use atlas_markets.Base.Float.{Float}
use atlas_markets.Guard.Symbols.{is_empty}
use atlas_markets.Bybit.Fills.{
  HistoryRow, text_or_empty, filled_statuses, is_filled_order, matching_history_row,
  zero_fill_cancellation, is_zero_decimal, history_evidence, confirmed, verify_from,
  verify_spot_fill, fill_verify_attempts,
}

module _ {F D : Type 0} ⦃dl : Float D⦄ where
  -- A cancelled order of the given link and side, with a filled quantity of exactly zero.
  pub record IsZeroFill (row : HistoryRow F D) : Type 0 where
    pub cancelled : text_eq (upper row.order_status) (codes "CANCELLED") ≡ true
    pub nothing_filled : is_zero_decimal row.filled_decimal ≡ true

  abbrev pub IsFill : HistoryRow F D → Type 0
  IsFill row = mem_text (upper row.order_status) filled_statuses ≡ true

  zero_fill_cancellation-IsZeroFill :
      (row : HistoryRow F D) (symbol side order_id link : Text)
      → zero_fill_cancellation row symbol side order_id link ≡ true
      → IsZeroFill row
  unfolding zero_fill_cancellation
  zero_fill_cancellation-IsZeroFill row symbol side order_id link h = ground arith

  zero_fill_cancellation-link :
      (row : HistoryRow F D) (symbol side order_id link : Text)
      → is_empty link ≡ false
      → zero_fill_cancellation row symbol side order_id link ≡ true
      → text_eq (text_or_empty row.order_link_id) link ≡ true
  unfolding zero_fill_cancellation
  zero_fill_cancellation-link row symbol side order_id link e h = ground arith

  -- What a row that is found tells.
  abbrev pub Tells : Text → HistoryRow F D → Type 0
  Tells link row =
      (text_eq (text_or_empty row.order_link_id) link ≡ true) × (IsFill row ⊎ IsZeroFill row)

  history_evidence-Tells :
      (link : Text) (history : List (HistoryRow F D)) {row : HistoryRow F D}
      → is_empty link ≡ false
      → history_evidence link history ≡ some row
      → Tells link row
  unfolding history_evidence matching_history_row is_filled_order
  history_evidence-Tells link history {row} e h =
      elim (Option-cases (find (is_filled_order link) history)) [
        | inl nothing ↦
            let z =
              find-holds (λ (r : HistoryRow F D). zero_fill_cancellation r r.symbol r.side [] link)
                history {y = row} (ground arith) in
            (
              zero_fill_cancellation-link row row.symbol row.side [] link e z,
              inr (zero_fill_cancellation-IsZeroFill row row.symbol row.side [] link z),
            )
        | inr (r, found) ↦
            let f = find-holds (is_filled_order link) history {y = row} (ground arith) in
            (ground arith, inl (ground arith))
      ]

  verify_from-Tells :
      (left attempt : ℕ) (reads : ℕ → Option (List (HistoryRow F D))) (link : Text)
      {row : HistoryRow F D}
      → is_empty link ≡ false
      → verify_from left attempt reads link ≡ confirmed row
      → Tells link row
  unfolding verify_from
  verify_from-Tells zero attempt reads link e h = cc
  verify_from-Tells (suc left) attempt reads link {row} e h = elim (Option-cases (reads attempt)) [
    | inl failed ↦ ground arith
    | inr (history, r) ↦ elim (Option-cases (history_evidence link history)) [
      | inl nothing ↦ verify_from-Tells left (attempt + 1) reads link {row = row} e (ground arith)
      | inr (found, t) ↦ history_evidence-Tells link history {row = row} e (ground arith)
    ]
  ]

  -- Whatever the exchange answers, a row that confirms an order with a link carries that link, and
  -- it is a filled or partly filled order, or a cancelled one with a filled quantity of zero.
  pub verify_spot_fill-Tells :
      (reads : ℕ → Option (List (HistoryRow F D))) (link : Text) {row : HistoryRow F D}
      → is_empty link ≡ false
      → verify_spot_fill reads link ≡ confirmed row
      → Tells link row
  unfolding verify_spot_fill
  verify_spot_fill-Tells reads link e h = verify_from-Tells fill_verify_attempts 0 reads link e h
