-- ===== src/Routing/Choice.antt =====
-- The route that `select_execution_route` of app/services/provider_routing.py selects.
use atlas_markets.Base.{
  ◌≡◌, refl, ap, ◌⊎◌, inl, inr, true, false, Option, none, some, List, [], ◌∷◌, All, Among, arith,
  Bool-cases,
}
use atlas_markets.Base.Text.{Text, upper, strip, text_eq, text_eq→eq, mem_text}
use atlas_markets.Base.Compare.{
  IsLinear, compare_bool, compare_text, compare_bool-IsLinear, compare_text-IsLinear,
  compare_pair-IsLinear,
}
use atlas_markets.Base.Sort.{best, before, find-sort, best-IsBest, IsBest}
use atlas_markets.Routing.{
  markets, provider_supports_market, RouteProfile, RouteCandidate, provider_markets, markets_of,
  executable, candidate, supported, sort_key, compare_key, normalize_market, route_candidates,
  select_execution_route,
}

compare_key-IsLinear : IsLinear compare_key
compare_key-IsLinear = compare_pair-IsLinear compare_bool _ compare_bool-IsLinear (
    compare_pair-IsLinear compare_text _ compare_text-IsLinear
      (compare_pair-IsLinear compare_text _ compare_text-IsLinear compare_text-IsLinear))

-- A profile that stands for the candidate and whose provider serves the market.
abbrev pub Stands : Text → RouteCandidate → RouteProfile → Type 0
Stands market r profile =
    (mem_text market (markets_of (upper profile.provider) provider_markets) ≡ true)
    × (r ≡ candidate profile)

supported-Stands :
    (market : Text) (r : RouteCandidate) (profiles : List RouteProfile)
    → Among (λ c. r ≡ c) (supported market profiles)
    → Among (Stands market r) profiles
unfolding supported
supported-Stands market r [] h = h
supported-Stands market r (profile ∷ profiles) h =
    elim (Bool-cases (mem_text market (markets_of (upper profile.provider) provider_markets))) [
      | inr other ↦ inr (supported-Stands market r profiles (rw other at h))
      | inl serves ↦
          let split : (r ≡ candidate profile) ⊎ Among (λ c. r ≡ c) (supported market profiles) =
            rw serves at h in
          elim split [
            | inl here ↦ inl (serves, here)
            | inr there ↦ inr (supported-Stands market r profiles there)
          ]
    ]

-- What a selection says of the profiles: no candidate is executable, or the selected one stands
-- for a profile whose provider serves the market, is executable, and no executable candidate
-- comes before it.
abbrev pub IsChosen : Text → List RouteProfile → Option RouteCandidate → Type 0
IsChosen market profiles none = All (λ c. executable c ≡ false) (supported market profiles)
IsChosen market profiles (some r) =
    Among (Stands market r) profiles
    × (executable r ≡ true)
    × All (λ c. executable c ≡ true → before sort_key compare_key c r ≡ false)
        (supported market profiles)

IsBest-IsChosen :
    (market : Text) (profiles : List RouteProfile) (found : Option RouteCandidate)
    → IsBest sort_key compare_key compare_key-IsLinear executable (supported market profiles) found
    → IsChosen market profiles found
IsBest-IsChosen market profiles none a = a
IsBest-IsChosen market profiles (some r) (among, yes_r, a) =
    (supported-Stands market r profiles among, yes_r, a)

-- The selection for a market that is known is the best executable candidate, as one pass over the
-- profiles finds it without sorting them, and it is a chosen one.
pub select_execution_route-IsChosen :
    (market : Text) (profiles : List RouteProfile) {m : Text}
    → normalize_market market ≡ some m
    → (select_execution_route market profiles
        ≡ some (best sort_key compare_key executable (supported m profiles)))
      × IsChosen m profiles (best sort_key compare_key executable (supported m profiles))
unfolding select_execution_route route_candidates
select_execution_route-IsChosen market profiles {m} known = (
  rw (known, select_execution_route, route_candidates)
      (ap some
        (find-sort sort_key compare_key compare_key-IsLinear executable (supported m profiles))),
  IsBest-IsChosen m profiles (best sort_key compare_key executable (supported m profiles))
      (best-IsBest sort_key compare_key compare_key-IsLinear executable (supported m profiles)),
)

mem_text-cases :
    (P : Text → Type 0) (s : Text) (ts : List Text) → mem_text s ts ≡ true → All P ts → P s
mem_text-cases P s [] h a = cc
mem_text-cases P s (t ∷ ts) h (pt, a) = elim (Bool-cases (text_eq s t)) [
  | inl same ↦ rw (text_eq→eq s t same) pt
  | inr other ↦ mem_text-cases P s ts (ground arith) a
]

normalize_market-known :
    (v : Text) {m : Text} → normalize_market v ≡ some m → mem_text m markets ≡ true
unfolding normalize_market
normalize_market-known v {m} h = elim (Bool-cases (mem_text (upper (strip v)) markets)) [
  | inl known ↦ let same : upper (strip v) ≡ m = ground arith in rw same at known
  | inr other ↦ ground arith
]

-- A normalized market is its own normal form, so the test that a provider serves it is a lookup.
pub provider_supports_market-known :
    (v provider : Text) {m : Text}
    → normalize_market v ≡ some m
    → provider_supports_market provider m
      ≡ some (mem_text m (markets_of (upper provider) provider_markets))
unfolding provider_supports_market normalize_market
provider_supports_market-known v provider {m} h =
    let again : normalize_market m ≡ some m =
      mem_text-cases (λ t. normalize_market t ≡ some t) m markets (normalize_market-known v h)
        (refl, (refl, (refl, (refl, (refl, (refl, tt)))))) in
    rw (again, provider_supports_market) refl
