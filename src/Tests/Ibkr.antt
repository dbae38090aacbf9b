-- ===== src/Tests/Ibkr.antt =====
-- Share sizes, fill evidence and protective orders on concrete inputs.
use atlas_markets.Base.{
  ℕ, zero, suc, ◌*◌, ◌/◌, ◌≡◌, refl, true, false, Option, some, List, [], ◌∷◌, All, arith,
}
use atlas_markets.Base.Int.{ℤ, pos, negsuc, sub_ℕ, pos_part, neg_part, ◌-ℤ◌, ◌+ℤ◌, ◌*ℤ◌}
use atlas_markets.Base.Text.{Text, codes}
use atlas_markets.Base.Float.{absent, number}
use atlas_markets.Base.Float.Fixed.{Fixed, fixed_float, Fixed-IsOrdered, whole_part}
use atlas_markets.Ibkr.Shares.{
  Shares, RoundsDown, size_ibkr_entry, size_ibkr_entry-le, ibkr_fill_is_complete, numbers_match,
  parsed,
}
use atlas_markets.Ibkr.Fill.{
  StatusRow, Rests, verdict_of, verify_ibkr_fill, verify_ibkr_fill-Rests, filled,
}
use atlas_markets.Ibkr.Protection.{
  OrderRow, Position, IsProtected, is_pair, is_live_order, row_protects,
  position_has_native_protection, position_has_native_protection-IsProtected,
}
use atlas_markets.Ibkr.Evidence.{
  Entry, Execution, Proof, IsUnique, IsCounted, total_quantity, execution_fill, is_own, deal_of,
  record_deal,
}
use atlas_markets.Ibkr.Evidence.Sound.{AreSourced, execution_fill-counts}

abbrev unit : ℕ → Fixed
unit n = fixed_float.num n 0

abbrev four_places : ℤ → ℤ
four_places a =
    sub_ℕ (pos_part a / 100_000_000 * 100_000_000) (neg_part a / 100_000_000 * 100_000_000)

abbrev pub shares : Shares Fixed Fixed
shares = record {
  to_float = λ x. x;
  quantize_down = λ x. some (four_places x);
  truncate = whole_part;
  of_float = λ x. x;
  round_whole = whole_part;
}

quantized :
    (x y : Fixed)
    → fixed_float.le (pos 0) x ≡ true
    → some (four_places x) ≡ some y
    → (fixed_float.le y x ≡ true) × (fixed_float.le (pos 0) y ≡ true)
quantized (pos n) y h e = (ground arith, ground arith)
quantized (negsuc n) y h e = ground arith

shares-RoundsDown : RoundsDown shares
shares-RoundsDown = record {
  nonneg = λ x f h. ground arith;
  quantize-le = quantized;
  truncate-le = λ x h. ground arith;
  to_float_mono = λ x y h. h;
  to_float-of_float = λ x. refl;
  of_float_nonneg = λ x h. h;
  to_float_zero = refl;
  zero_refl = refl;
}

size_ibkr_entry-le_example : fixed_float.le (unit 2) (pos 2_500_000_000_000) ≡ true
unfolding size_ibkr_entry
size_ibkr_entry-le_example =
    size_ibkr_entry-le shares Fixed-IsOrdered shares-RoundsDown (pos 2_500_000_000_000) false refl
      refl refl

abbrev reads : ℕ → Option (StatusRow Fixed)
reads zero =
    some
      (record { status = codes "Submitted"; filled = number (unit 1); remaining = number (unit 1) })
reads (suc n) =
    some (record { status = codes "Filled"; filled = number (unit 2); remaining = number (unit 0) })

verify_filled : verify_ibkr_fill reads (number (unit 2)) ≡ filled
unfolding verify_ibkr_fill verdict_of ibkr_fill_is_complete numbers_match ◌-ℤ◌
verify_filled = refl

verify_ibkr_fill-Rests_example :
    Rests reads (number (unit 2)) (verify_ibkr_fill reads (number (unit 2)))
verify_ibkr_fill-Rests_example = verify_ibkr_fill-Rests reads (number (unit 2))

abbrev account : Text
account = codes "DU1"

abbrev stop_order : OrderRow Fixed
stop_order = record {
  account = some account;
  symbol = codes "AAPL";
  status = codes "PreSubmitted";
  kind = codes "STP";
  oca_group = some (codes "atlas-protect-7");
  oca_type = 2;
  order_ref = some (codes "atlas-protect-7");
  side = codes "SELL";
  sec_type = codes "STK";
  tif = codes "GTC";
  outside_rth = some false;
  quantity = number (unit 3);
  filled = absent;
  aux_price = number (unit 90);
  limit_price = absent;
}

abbrev limit_order : OrderRow Fixed
limit_order = record stop_order {
  kind = codes "LMT";
  aux_price = absent;
  limit_price = number (unit 120);
}

abbrev holding : Position Fixed
holding = record { account = some account; symbol = codes "AAPL"; quantity = number (unit 3) }

position_has_native_protection-IsProtected_example :
    IsProtected holding (some account) (stop_order ∷ limit_order ∷ [])
unfolding position_has_native_protection is_pair is_live_order row_protects ◌-ℤ◌
position_has_native_protection-IsProtected_example =
    position_has_native_protection-IsProtected holding (stop_order ∷ limit_order ∷ [])
      (some account) refl

abbrev entry : Entry Fixed
entry = record {
  provider = codes "IBKR";
  environment = codes "PAPER";
  side = codes "BUY";
  symbol = codes "AAPL";
  broker_order_id = codes "12";
  quantity = number (unit 3);
  created_ms = 1_000;
}

abbrev first_part : Execution Fixed
first_part = record {
  order_id = codes "12";
  account = account;
  execution_id = codes "e1";
  symbol = codes "AAPL";
  side = codes "BOT";
  sec_type = codes "STK";
  quantity = number (unit 1);
  price = number (unit 100);
  stamp = 2_000;
}

abbrev second_part : Execution Fixed
second_part = record first_part {
  execution_id = codes "e2";
  quantity = number (unit 2);
  price = number (unit 103);
}

abbrev executions : List (Execution Fixed)
executions = first_part ∷ second_part ∷ first_part ∷ []

abbrev fill_proof : Proof Fixed
fill_proof = record {
  quantity = unit 3;
  price = unit 102;
  deals =
      (codes "e2", record { quantity = unit 2; price = unit 103; stamp = 2_000 })
      ∷ (codes "e1", record { quantity = unit 1; price = unit 100; stamp = 2_000 })
      ∷ [];
}

execution_fill-counts_example :
    IsUnique fill_proof.deals
    × (fill_proof.quantity ≡ total_quantity fill_proof.deals)
    × ((expected : Fixed) × (parsed entry.quantity ≡ some expected)
        × (numbers_match fill_proof.quantity expected ≡ true))
    × All (IsCounted entry account 3_000 fill_proof.deals) executions
    × AreSourced entry account 3_000 executions fill_proof.deals
unfolding execution_fill is_own deal_of record_deal numbers_match ◌-ℤ◌ ◌+ℤ◌ ◌*ℤ◌
execution_fill-counts_example = execution_fill-counts entry executions account 3_000 refl
