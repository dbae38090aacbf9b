-- ===== src/Tests/Access.antt =====
-- Runs of the assignment of accounts, with an address that is split by hand.
use atlas_markets.Base.{◌≡◌, refl, false, Option, none, some, [], ◌∷◌, All}
use atlas_markets.Base.Text.{Text, codes, mem_text, strip}
use atlas_markets.Base.Answer.{done, refused}
use atlas_markets.Access.Assign.{
  owner_denied, bridge_assigned, account_assigned, key_assigned, effective_owner_id, Parts,
  Endpoint, IbkrRow, bridge_identity, assert_ibkr_assignment, assert_bybit_key_assignment,
}
use atlas_markets.Access.Assign.Apart.{IsApart, assert_ibkr_assignment-IsApart}

-- Every address is the host of that name at port 8766.
abbrev split_toy : Text → Option Parts
split_toy url = some (record {
  scheme = codes "http";
  hostname = url;
  extras = false;
  port = some (some 8766);
  path = [];
})

abbrev as_it_is : Text → Text
as_it_is path = path

abbrev row : IbkrRow
row = record {
  id = 1;
  owner = 7;
  environment = codes "PAPER";
  saved_account = codes "DU1";
  account_ref = [];
  saved_url = codes "desk";
}

free :
    assert_ibkr_assignment split_toy as_it_is
      (row ∷ [])
      []
      7
      (codes "PAPER")
      (codes " DU2 ")
      (codes "Floor")
      none
    ≡ done tt
unfolding assert_ibkr_assignment
free = refl

shared_bridge :
    assert_ibkr_assignment split_toy as_it_is
      (row ∷ [])
      []
      8
      (codes "PAPER")
      (codes "DU1")
      (codes "desk")
      none
    ≡ refused bridge_assigned
unfolding assert_ibkr_assignment
shared_bridge = refl

same_account :
    assert_ibkr_assignment split_toy as_it_is
      (row ∷ [])
      []
      7
      (codes "PAPER")
      (codes "DU1")
      (codes "Desk")
      none
    ≡ refused account_assigned
unfolding assert_ibkr_assignment
same_account = refl

itself :
    assert_ibkr_assignment split_toy as_it_is
      (row ∷ [])
      []
      7
      (codes "PAPER")
      (codes "DU1")
      (codes "desk")
      (some 1)
    ≡ done tt
unfolding assert_ibkr_assignment
itself = refl

key_taken :
    assert_bybit_key_assignment
      (record { id = 3; environment = codes "LIVE"; key = some (codes "k "); verified_uid = none }
        ∷ [])
      (codes "LIVE")
      (codes " k")
      none
    ≡ refused key_assigned
unfolding assert_bybit_key_assignment
key_taken = refl

other_scope : effective_owner_id (record { id = 7; admin = false }) (some 8) ≡ refused owner_denied
unfolding effective_owner_id
other_scope = refl

assert_ibkr_assignment-IsApart_example :
    (endpoint : Endpoint) × (bridge_identity split_toy as_it_is (codes "Floor") ≡ done endpoint)
    × (mem_text (strip (codes " DU2 ")) [] ≡ false)
    × All
        (IsApart split_toy as_it_is (codes "PAPER") (strip (codes " DU2 ")) endpoint none)
        (row ∷ [])
assert_ibkr_assignment-IsApart_example =
    assert_ibkr_assignment-IsApart split_toy as_it_is (row ∷ []) [] 7 (codes "PAPER")
      (codes " DU2 ") (codes "Floor") none free
