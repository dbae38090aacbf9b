-- ===== src/Accounts/Live.antt =====
-- app/services/live_execution.py, and the two live-execution handlers of
-- app/api/routes_accounts.py. Times are natural numbers of one unit.
use atlas_markets.Base.{
  ℕ, ◌+◌, ◌*◌, Bool, true, false, not, ◌&&◌, Option, none, some, List, [], ◌∷◌, ◌++◌, leb, take,
  if◌then◌else◌,
}
use atlas_markets.Base.Text.{Text, codes, text_eq, mem_text, upper, strip}
use atlas_markets.Guard.Symbols.{is_empty}
use atlas_markets.Base.Answer.{Answer, done, ◌>>=◌, require}
use atlas_markets.Accounts.{
  Account, Actor, LiveAction, armed, disarmed, auto_disarmed, Store, Refusal, admin_role_required,
  market_data_only, live_trading_blocked, safety_unsatisfied, confirmation_required,
  authorized_profile, put,
}

pub data Blocker : Type 0 where
  live_environment_required account_disabled account_not_active : Blocker
  credentials_not_configured provider_not_connected live_execution_not_certified : Blocker
  buy_certification_required sell_certification_required arming_expired : Blocker

abbrev pub block_if : Bool → Blocker → List Blocker
block_if test blocker = if test then blocker ∷ [] else []

abbrev pub connected : Account → Bool
connected account = text_eq account.status (codes "CONNECTED")

abbrev pub has_expired : ℕ → Option ℕ → Bool
has_expired now none = false
has_expired now (some e) = leb e now

unfoldable pub live_execution_blockers : Account → ℕ → List Blocker
live_execution_blockers account now =
    block_if (not (text_eq (upper account.environment) (codes "LIVE"))) live_environment_required
    ++ (block_if (not account.is_enabled) account_disabled
        ++ (block_if (not account.is_active) account_not_active
            ++ (block_if (not account.credentials_configured) credentials_not_configured
                ++ (block_if (not (connected account)) provider_not_connected
                    ++ (block_if (not account.certified) live_execution_not_certified
                        ++ (block_if (not account.buy_passed) buy_certification_required
                            ++ (block_if (not account.sell_passed) sell_certification_required
                                ++ block_if (has_expired now account.expires_at)
                                    arming_expired)))))))

abbrev pub is_none : {A : Type 0} → Option A → Bool
is_none none = true
is_none (some a) = false

abbrev pub no_blockers : List Blocker → Bool
no_blockers [] = true
no_blockers (b ∷ bs) = false

unfoldable pub live_execution_is_armed : Account → ℕ → Bool
unfolding live_execution_blockers
live_execution_is_armed account now =
    account.live_enabled
    && not (is_none account.expires_at)
    && no_blockers (live_execution_blockers account now)

unfoldable pub disarm_live_execution : Account → Text → Account
disarm_live_execution account reason = record account {
  live_enabled = false;
  armed_at = none;
  expires_at = none;
  disarm_reason = some (take 500 reason);
}

-- The body of the request; `duration` is between 5 and 240 minutes, and `minute` is the length of
-- one in the unit of time.
pub record LiveUpdate : Type 0 where
  pub enabled : Bool
  pub confirmation : Option Text
  pub duration_minutes : ℕ
  pub reason : Option Text

abbrev pub trading_providers : List Text
trading_providers = codes "BYBIT" ∷ codes "MT5" ∷ codes "IBKR" ∷ []

abbrev pub confirms : Account → Option Text → Bool
confirms account none = false
confirms account (some text) =
    text_eq (strip text)
      (codes "ENABLE LIVE " ++ (account.provider ++ (codes " " ++ account.label)))

-- `(reason or '').strip() or default`
abbrev pub reason_or : Text → Option Text → Text
reason_or default none = default
reason_or default (some text) = if is_empty (strip text) then default else strip text

abbrev pub record_event : Store → Actor → Account → LiveAction → Store
record_event store actor account action = record {
  accounts = put account store.accounts;
  events =
      record {
        profile = account.id;
        actor = actor.id;
        action = action;
        armed_until = account.expires_at;
      }
      ∷ store.events;
}

abbrev pub lapsed : Account → ℕ → Bool
lapsed account now = account.live_enabled && has_expired now account.expires_at

-- `GET live-execution`: an expired arming is taken back.
unfoldable pub live_execution_status : Store → Actor → ℕ → ℕ → Answer Refusal Store
unfolding authorized_profile disarm_live_execution
live_execution_status store actor id now = do
  account ← authorized_profile store actor id
  done (
      if lapsed account now
      then record_event store actor
          (disarm_live_execution account (codes "Automatic disarm: arming window expired"))
          auto_disarmed
      else store)

module _ (allow_live_trading : Bool) (minute : ℕ) where
  unfoldable pub arm : Account → LiveUpdate → ℕ → Answer Refusal Account
  unfolding live_execution_blockers
  arm account update now = do
    allowed ← require allow_live_trading live_trading_blocked
    safe ← require (no_blockers (live_execution_blockers account now)) safety_unsatisfied
    confirmed ← require (confirms account update.confirmation) confirmation_required
    done (record account {
      live_enabled = true;
      armed_at = some now;
      expires_at = some (now + update.duration_minutes * minute);
      disarm_reason = none;
    })

  -- The row after `PUT live-execution`, and the action that its event names.
  unfoldable pub switched : Account → LiveUpdate → ℕ → Answer Refusal (Account × LiveAction)
  unfolding arm disarm_live_execution
  switched account update now =
      if update.enabled
      then (arm account update now >>= (λ a. done (a, armed)))
      else done (
        disarm_live_execution account
            (reason_or (codes "Explicit administrator disarm") update.reason),
        disarmed,
      )

  unfoldable pub live_execution : Store → Actor → ℕ → LiveUpdate → ℕ → Answer Refusal Store
  unfolding authorized_profile switched
  live_execution store actor id update now = do
    admin ← require actor.admin admin_role_required
    account ← authorized_profile store actor id
    trades ← require (mem_text account.provider trading_providers) market_data_only
    change ← switched account update now
    done (record_event store actor change.0 change.1)
