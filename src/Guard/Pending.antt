-- ===== src/Guard/Pending.antt =====
-- Which symbols `pending_order_symbols` reports, against a description row by row.
use atlas_markets.Base.{
  ◌≡◌, refl, Bool, true, not, ◌&&◌, ◌||◌, List, [], ◌∷◌, ◌++◌, arith, any, if◌then◌else◌,
}
use atlas_markets.Base.Text.{Text, text_eq, mem_text, text_eq→eq}
use atlas_markets.Base.Float.{Float}
use atlas_markets.Guard.Symbols.{
  canonical_symbol, OrderRow, row_status, terminal, nothing_remains, is_empty, add_symbol,
  pending_from, pending_order_symbols,
}

mem_text-append :
    (s : Text) (xs ys : List Text) → mem_text s (xs ++ ys) ≡ mem_text s xs || mem_text s ys
mem_text-append s [] ys = refl
mem_text-append s (x ∷ xs) ys = ground (arith, mem_text-append s xs ys)

mem_text_replace :
    (s t : Text) (xs : List Text) → text_eq s t ≡ true → mem_text t xs ≡ true → mem_text s xs ≡ true
mem_text_replace s t xs h k = rw (text_eq→eq s t h) k

-- A set with one more symbol; the empty symbol is no member.
mem_text-add_symbol :
    (s t : Text) (out : List Text)
    → mem_text s (add_symbol t out) ≡ mem_text s out || (not (is_empty t) && text_eq s t)
mem_text-add_symbol s t out =
    ground (arith, mem_text-append s out (t ∷ []), mem_text_replace s t out)

module _ {F : Type 0} ⦃fl : Float F⦄ where
  -- The order still stands for exposure in the symbol `s`.
  pub is_pending_in : Text → OrderRow F → Bool
  is_pending_in s row =
      not (mem_text (row_status row) terminal)
      && not (nothing_remains row.remaining)
      && not (is_empty (canonical_symbol row.symbol))
      && text_eq s (canonical_symbol row.symbol)

  pending_from-mem :
      (s : Text) (rows : List (OrderRow F)) (out : List Text)
      → mem_text s (pending_from out rows) ≡ mem_text s out || any (is_pending_in s) rows
  unfolding pending_from is_pending_in
  pending_from-mem s [] out = ground arith
  pending_from-mem s (row ∷ rows) out =
      let symbol = canonical_symbol row.symbol in
      let closed = mem_text (row_status row) terminal in
      let empty = nothing_remains row.remaining in
      ground (
        arith,
        mem_text-add_symbol s symbol out,
        pending_from-mem s rows
            (if closed then out else if empty then out else add_symbol symbol out),
      )

  -- A symbol is reported exactly when some order of it is neither in a terminal status nor known
  -- to have nothing left to fill; an order without a symbol reports nothing.
  pub pending_order_symbols-mem :
      (s : Text) (rows : List (OrderRow F))
      → mem_text s (pending_order_symbols rows) ≡ any (is_pending_in s) rows
  unfolding pending_order_symbols
  pending_order_symbols-mem s rows = pending_from-mem s rows []
