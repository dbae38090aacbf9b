-- ===== src/Routing.antt =====
-- app/services/provider_routing.py: which connected profile executes orders of a market.
pub mod Choice
use atlas_markets.Base.{
  ℕ, Bool, true, false, not, ◌&&◌, Option, none, some, List, [], ◌∷◌, find, if◌then◌else◌,
}
use atlas_markets.Base.Text.{Text, codes, text_eq, mem_text, upper, strip, remove}
use atlas_markets.Base.Compare.{Comparison, compare_bool, compare_text, compare_pair}
use atlas_markets.Base.Sort.{sort}
use atlas_markets.Guard.Symbols.{is_empty}

abbrev pub markets : List Text
markets =
    codes "CRYPTO"
    ∷ codes "FX"
    ∷ codes "STOCK"
    ∷ codes "ETF"
    ∷ codes "METAL"
    ∷ codes "COMMODITY"
    ∷ []

-- `PROVIDER_MARKETS`
abbrev pub provider_markets : List (Text × List Text)
provider_markets =
    (codes "BYBIT", codes "CRYPTO" ∷ [])
    ∷ (codes "MT5", codes "FX" ∷ codes "METAL" ∷ codes "COMMODITY" ∷ [])
    ∷ (codes "IBKR", codes "STOCK" ∷ codes "ETF" ∷ [])
    ∷ (codes "TWELVE_DATA", [])
    ∷ []

-- A text that is None is the empty text, here and below; none is the ValueError.
unfoldable pub normalize_market : Text → Option Text
normalize_market value =
    let market = upper (strip value) in if mem_text market markets then some market else none

abbrev pub slashless : List Text
slashless = codes "FX" ∷ codes "CRYPTO" ∷ codes "METAL" ∷ codes "COMMODITY" ∷ []

unfoldable pub normalize_symbol : Text → Text → Option Text
unfolding normalize_market
normalize_symbol market symbol = elim (normalize_market market) [
  | none ↦ none
  | some m ↦
      let value = remove b' ' (upper symbol) in
      if is_empty value
      then none
      else if mem_text m slashless
      then some (remove b'/' value)
      else some value
]

-- `PROVIDER_MARKETS.get(provider, set())`
abbrev pub markets_of : Text → List (Text × List Text) → List Text
markets_of provider [] = []
markets_of provider ((name, ms) ∷ rest) =
    if text_eq provider name then ms else markets_of provider rest

abbrev pub names_with : Text → List (Text × List Text) → List Text
names_with market [] = []
names_with market ((name, ms) ∷ rest) =
    let others = names_with market rest in if mem_text market ms then name ∷ others else others

unfoldable pub providers_for_market : Text → Option (List Text)
unfolding normalize_market
providers_for_market market = elim (normalize_market market) [
  | none ↦ none
  | some m ↦ some (names_with m provider_markets)
]

unfoldable pub provider_supports_market : Text → Text → Option Bool
unfolding normalize_market
provider_supports_market provider market = elim (normalize_market market) [
  | none ↦ none
  | some m ↦ some (mem_text m (markets_of (upper provider) provider_markets))
]

-- What is read of a profile.
pub record RouteProfile : Type 0 where
  pub id : Text
  pub provider : Text
  pub account_label : Text
  pub environment : Text
  pub last_connection_status : Text
  pub is_enabled : Bool
  pub is_active : Bool
  pub credentials_configured : Bool

pub record RouteCandidate : Type 0 where
  pub profile_id : Text
  pub provider : Text
  pub label : Text
  pub environment : Text
  pub connected : Bool
  pub enabled : Bool
  pub active : Bool
  pub credentials_configured : Bool

unfoldable pub executable : RouteCandidate → Bool
executable row = row.connected && row.enabled && row.active && row.credentials_configured

unfoldable pub candidate : RouteProfile → RouteCandidate
candidate profile =
    let provider = upper profile.provider in
    record {
      profile_id = profile.id;
      provider = provider;
      label = if is_empty profile.account_label then provider else profile.account_label;
      environment = profile.environment;
      connected = text_eq (upper profile.last_connection_status) (codes "CONNECTED");
      enabled = profile.is_enabled;
      active = profile.is_active;
      credentials_configured = profile.credentials_configured;
    }

-- The rows of the loop, for a market that is normalized already, so that the test of the provider
-- normalizes it to itself.
unfoldable pub supported : Text → List RouteProfile → List RouteCandidate
unfolding candidate
supported market [] = []
supported market (profile ∷ profiles) =
    let rest = supported market profiles in
    if mem_text market (markets_of (upper profile.provider) provider_markets)
    then candidate profile ∷ rest
    else rest

-- The sort key: `(not row.executable, row.provider, row.label, row.profile_id)`.
abbrev pub Key : Type 0
Key = Bool × (Text × (Text × Text))

abbrev pub sort_key : RouteCandidate → Key
sort_key row = (not (executable row), (row.provider, (row.label, row.profile_id)))

abbrev pub compare_key : Key → Key → Comparison
compare_key =
    compare_pair compare_bool (compare_pair compare_text (compare_pair compare_text compare_text))

unfoldable pub route_candidates : Text → List RouteProfile → Option (List RouteCandidate)
unfolding normalize_market supported
route_candidates market profiles = elim (normalize_market market) [
  | none ↦ none
  | some m ↦ some (sort sort_key compare_key (supported m profiles))
]

-- The outer none is the ValueError of an unknown market, the inner one no executable route.
unfoldable pub select_execution_route : Text → List RouteProfile → Option (Option RouteCandidate)
unfolding route_candidates
select_execution_route market profiles = elim (route_candidates market profiles) [
  | none ↦ none
  | some rows ↦ some (find executable rows)
]
