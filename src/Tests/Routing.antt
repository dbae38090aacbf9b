-- ===== src/Tests/Routing.antt =====
-- Runs of the selection of a profile that executes orders.
use atlas_markets.Base.{◌≡◌, refl, true, false, none, some, List, [], ◌∷◌}
use atlas_markets.Base.Text.{Text, codes}
use atlas_markets.Base.Sort.{sort, best}
use atlas_markets.Base.Compare.{compare_text}
use atlas_markets.Routing.{
  RouteProfile, normalize_market, normalize_symbol, providers_for_market, provider_supports_market,
  executable, candidate, supported, sort_key, compare_key, select_execution_route,
}
use atlas_markets.Routing.Choice.{IsChosen, select_execution_route-IsChosen}

abbrev desk : Text → Text → RouteProfile
desk id label = record {
  id = id;
  provider = codes "ibkr";
  account_label = label;
  environment = codes "PAPER";
  last_connection_status = codes "connected";
  is_enabled = true;
  is_active = true;
  credentials_configured = true;
}

abbrev profiles : List RouteProfile
profiles =
    record (desk (codes "1") (codes "alpha")) { is_active = false }
    ∷ desk (codes "2") (codes "gamma")
    ∷ record (desk (codes "3") []) { provider = codes "MT5" }
    ∷ desk (codes "4") (codes "beta")
    ∷ []

stock_route :
    select_execution_route (codes " stock ") profiles
    ≡ some (some (candidate (desk (codes "4") (codes "beta"))))
unfolding select_execution_route sort executable compare_text
stock_route = refl

unknown_market : select_execution_route (codes "BOND") profiles ≡ none
unfolding select_execution_route
unknown_market = refl

slash_symbol : normalize_symbol (codes "fx") (codes "eur / usd") ≡ some (codes "EURUSD")
unfolding normalize_symbol
slash_symbol = refl

metal_providers : providers_for_market (codes "metal") ≡ some (codes "MT5" ∷ [])
unfolding providers_for_market
metal_providers = refl

bybit_supports : provider_supports_market (codes "bybit") (codes "ETF") ≡ some false
unfolding provider_supports_market
bybit_supports = refl

stock_known : normalize_market (codes " stock ") ≡ some (codes "STOCK")
unfolding normalize_market
stock_known = refl

select_execution_route-IsChosen_example :
    (select_execution_route (codes " stock ") profiles
      ≡ some (best sort_key compare_key executable (supported (codes "STOCK") profiles)))
    × IsChosen
        (codes "STOCK")
        profiles
        (best sort_key compare_key executable (supported (codes "STOCK") profiles))
select_execution_route-IsChosen_example =
    select_execution_route-IsChosen (codes " stock ") profiles stock_known
