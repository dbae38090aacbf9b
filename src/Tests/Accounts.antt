-- ===== src/Tests/Accounts.antt =====
-- Runs of the handlers for broker accounts.
use atlas_markets.Base.{ℕ, ◌<◌, ◌≡◌, ◌&&◌, refl, true, false, none, some, List, [], ◌∷◌, find, map}
use atlas_markets.Base.Text.{codes}
use atlas_markets.Base.Answer.{done}
use atlas_markets.Accounts.{Account, Actor, armed, LiveEvent, Store, has_id, authorized_profile}
use atlas_markets.Accounts.Live.{connected, live_execution_is_armed, LiveUpdate}
use atlas_markets.Accounts.Lifecycle.{
  activate, Request, put_live, get_live, toggle, detect, make_active, serve,
}
use atlas_markets.Accounts.Audit.{last_event}
use atlas_markets.Accounts.Audit.Serve.{serve-armed}
use atlas_markets.Accounts.Active.{IsOnly, activate-IsOnly}

abbrev row : ℕ → Account
row id = record {
  id = id;
  owner = 7;
  provider = codes "BYBIT";
  label = codes "Main";
  environment = codes "LIVE";
  is_enabled = true;
  is_active = true;
  live_enabled = false;
  armed_at = none;
  expires_at = none;
  disarm_reason = none;
  certified = true;
  buy_passed = true;
  sell_passed = true;
  status = codes "CONNECTED";
  credentials_configured = true;
  has_keys = true;
  open_positions = 0;
  open_orders = 0;
  created = id;
}

abbrev idle : ℕ → Account
idle id = record (row id) { is_active = false }

abbrev store : Store
store = record { accounts = row 1 ∷ idle 2 ∷ idle 3 ∷ []; events = [] }

abbrev admin : Actor
admin = record { id = 9; admin = true }

abbrev trader : Actor
trader = record { id = 7; admin = false }

abbrev arming : LiveUpdate
arming = record {
  enabled = true;
  confirmation = some (codes " ENABLE LIVE BYBIT Main ");
  duration_minutes = 30;
  reason = none;
}

abbrev requests : List (Actor × Request)
requests =
    (trader, put_live 1 arming 1000)
    ∷ (admin, put_live 1 arming 1000)
    ∷ (trader, make_active 3)
    ∷ (trader, make_active 1)
    ∷ []

abbrev armed_row : Account
armed_row = record (row 1) { live_enabled = true; armed_at = some 1000; expires_at = some 2800 }

serve_found : find (has_id 1) (serve true 60 store requests).accounts ≡ some armed_row
unfolding serve
serve_found = refl

still_armed : live_execution_is_armed armed_row 2799 ≡ true
unfolding live_execution_is_armed
still_armed = refl

serve-armed_example :
    (event : LiveEvent) × (e : ℕ) × (last_event 1 (serve true 60 store requests).events
      ≡ some event)
    × (event.action ≡ armed)
    × (event.armed_until ≡ some e)
    × (2799 < e)
serve-armed_example =
    serve-armed true 60 store requests 1 2799 armed_row (refl, (refl, (refl, tt))) serve_found
      still_armed

-- An account that is not in use is switched off, and a second one of its owner and provider comes
-- into use beside the one that is.
two_in_use :
    map (λ a. a.is_active) (serve true 60 store ((trader, toggle 2) ∷ [])).accounts
    ≡ true ∷ false ∷ true ∷ []
unfolding serve
two_in_use = refl

-- A new environment switches an account off but leaves the end of its arming, which in time is a
-- blocker of the next arming.
abbrev detected : Account
detected = record armed_row {
  environment = codes "DEMO";
  live_enabled = false;
  armed_at = none;
  certified = false;
  buy_passed = false;
  sell_passed = false;
}

expiry_left :
    find
      (has_id 1)
      (serve true 60 store (
        (admin, put_live 1 arming 1000)
        ∷ (trader, detect 1 ((codes "DEMO", true) ∷ []))
        ∷ (trader, get_live 1 9000)
        ∷ [])).accounts
    ≡ some detected
unfolding serve
expiry_left = refl

activated :
    activate store trader 3 ≡ done (record store { accounts = idle 1 ∷ idle 2 ∷ row 3 ∷ [] })
unfolding activate
activated = refl

activate-IsOnly_example :
    (account : Account) × (authorized_profile store trader 3 ≡ done account)
    × ((account.is_enabled && connected account) ≡ true)
    × IsOnly account (idle 1 ∷ idle 2 ∷ row 3 ∷ [])
    × (store.events ≡ store.events)
activate-IsOnly_example = activate-IsOnly store trader 3 activated
