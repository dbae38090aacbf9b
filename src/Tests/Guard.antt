-- ===== src/Tests/Guard.antt =====
-- Runs of the execution guard.
use atlas_markets.Base.{◌≡◌, refl, List, [], ◌∷◌, All, any, ◌⊎◌, ℕ}
use atlas_markets.Base.Text.{codes, mem_text}
use atlas_markets.Base.Float.{number}
use atlas_markets.Base.Float.Fixed.{Fixed, fixed_float}
use atlas_markets.Base.Int.{pos}
use atlas_markets.Guard.Symbols.{canonical_symbol, OrderRow, row_status, pending_order_symbols}
use atlas_markets.Guard.Canonical.{IsCanonical, canonical_symbol-IsCanonical}
use atlas_markets.Guard.Pending.{is_pending_in, pending_order_symbols-mem}
use atlas_markets.Guard.Reserve.{
  State, start, lock_for, try_acquire, reserved, refused, Reach, here, next, looks_up, tries,
}
use atlas_markets.Guard.Reserve.Exclusive.{reserve_execution_excludes, try_acquire-refused}

canonical_runs : canonical_symbol (codes " btc/usdt ") ≡ codes "BTCUSDT"
unfolding canonical_symbol
canonical_runs = refl

canonical_symbol-IsCanonical_example : All IsCanonical (canonical_symbol (codes "eth / usd"))
canonical_symbol-IsCanonical_example = canonical_symbol-IsCanonical (codes "eth / usd")

abbrev open_row : OrderRow Fixed
open_row = record {
  symbol = codes "btc/usdt";
  status = [];
  order_status = codes "new";
  order_status_camel = [];
  remaining = number (pos 1);
}

abbrev done_row : OrderRow Fixed
done_row = record open_row { symbol = codes "ethusdt"; status = codes "filled" }

abbrev empty_row : OrderRow Fixed
empty_row = record open_row { symbol = codes "solusdt"; remaining = number (pos 0) }

abbrev rows : List (OrderRow Fixed)
rows = done_row ∷ open_row ∷ empty_row ∷ open_row ∷ []

pending_runs : pending_order_symbols rows ≡ codes "BTCUSDT" ∷ []
unfolding pending_order_symbols row_status canonical_symbol
pending_runs = refl

pending_order_symbols-mem_example :
    mem_text (codes "BTCUSDT") (pending_order_symbols rows)
    ≡ any (is_pending_in (codes "BTCUSDT")) rows
pending_order_symbols-mem_example = pending_order_symbols-mem (codes "BTCUSDT") rows

-- Task 1 holds the key 7, and task 2 was given the same lock object.
abbrev contended : State
contended = lock_for 2 7 (try_acquire 1 7 0 (lock_for 1 7 start))

contended_reached : Reach contended
unfolding start lock_for try_acquire
contended_reached =
    next (next (next here (looks_up 1 7 start refl)) (tries 1 7 0 (lock_for 1 7 start) refl))
      (looks_up 2 7 (try_acquire 1 7 0 (lock_for 1 7 start)) refl)

reserve_execution_excludes_example : ◌≡◌ {A = ℕ} 1 1
unfolding start lock_for try_acquire
reserve_execution_excludes_example =
    reserve_execution_excludes contended_reached 1 1 7 0 0 refl refl

try_acquire-refused_example :
    ((try_acquire 2 7 0 contended).phase 2 ≡ reserved 7 0)
    ⊎ ((u : ℕ) × (contended.phase u ≡ reserved 7 0)
        × ((try_acquire 2 7 0 contended).phase 2 ≡ refused))
unfolding start lock_for try_acquire
try_acquire-refused_example = try_acquire-refused contended_reached 2 7 0 refl
