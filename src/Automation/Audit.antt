-- ===== src/Automation/Audit.antt =====
-- `_execute_ibkr_audited` of app/services/safe_automation.py: the intent of an entry is committed
-- before the broker can be reached. The list of actions is the table as this worker leaves it.
pub mod Sound
use atlas_markets.Base.{
  ℕ, ◌≡◌, refl, sym, ◌⊎◌, inl, inr, arith, Option-cases, Bool-cases, Bool, true, false, not, ◌&&◌,
  ◌||◌, ◌==◌, Option, none, some, List, [], ◌∷◌, ◌++◌, find, any, if◌then◌else◌,
}
use atlas_markets.Base.Text.{Text, text_eq, text_eq_refl, upper}
use atlas_markets.Base.Float.{Float}
use atlas_markets.Rows.{
  Status, block, skip, submitted, executed, cancelled, exit_submitted, exit_executed, Action,
  Profile,
}
use atlas_markets.Ibkr.Shares.{Shares}
use atlas_markets.Automation.Route.{
  World, Verdict, cleared, blocked, raised, ibkr, paper, entry_authorization_blocker,
}
use atlas_markets.Automation.Entry.{
  Settings, Item, Broker, Moments, Order, Outcome, is_for, item_symbol,
}
use atlas_markets.Automation.Entry.Place.{execute_ibkr}
use atlas_markets.Automation.Entry.Sound.{IsEntry, execute_ibkr-IsEntry}

-- What other parties can see of a call, in order: the table at each commit, and the order sent to
-- the broker.
pub data Effect (F : Type 0) : Type 0 where
  committed : List Action → Effect F
  sent : Order F → Effect F

-- How the call runs on, once the entry is authorized. `returns`: to its end, where an exception of
-- `_execute_ibkr` is caught and recorded. `save_fails`: the commit of the intent raises. A
-- cancellation propagates, and meets the call before or after the order is sent. `close_fails`: the
-- refresh of the action or the last commit raises.
pub data Course : Type 0 where
  returns save_fails cancelled_before_post cancelled_after_post close_fails : Course

-- `status` is the status of the result, or none where an exception leaves the call.
pub record Audited (F : Type 0) : Type 0 where
  pub status : Option Status
  pub actions : List Action
  pub trace : List (Effect F)

abbrev pub awaits : Status → Bool
awaits submitted = true
awaits exit_submitted = true
awaits cancelled = false
awaits executed = false
awaits exit_executed = false
awaits block = false
awaits skip = false

-- An exception left the call, or its result is still a submission.
abbrev pub stays_open : Option Status → Bool
stays_open none = true
stays_open (some status) = awaits status

-- The query for a pending submission.
unfoldable pub is_pending : ℕ → ℕ → Text → Action → Bool
is_pending user profile symbol action =
    (action.user == user)
    && (action.profile == profile)
    && text_eq action.provider ibkr
    && text_eq action.environment paper
    && text_eq action.symbol symbol
    && awaits action.status

-- `result.get('status') or 'SUBMITTED'`; an exception leaves the status of the intent.
abbrev pub status_or_submitted : Option Status → Status
status_or_submitted none = submitted
status_or_submitted (some status) = status

abbrev pub sent_of : {F : Type 0} → Option (Order F) → List (Effect F)
sent_of none = []
sent_of (some order) = sent order ∷ []

abbrev pub refused_with : {F : Type 0} → Option Status → List Action → Audited F
refused_with status actions = record { status = status; actions = actions; trace = [] }

-- An exception leaves the call after the intent was committed: the table keeps the intent.
abbrev pub left_open : {F : Type 0} → List Action → List (Effect F) → Audited F
left_open saved effects = record {
  status = none;
  actions = saved;
  trace = committed saved ∷ effects;
}

module _ {F D : Type 0} where
  unfoldable pub profile_for_item : World → ℕ → Item F D → Option (ℕ × Profile)
  profile_for_item world user item =
      elim (find (is_for user (upper item.market) (item_symbol item)) world.configs) [
        | none ↦ none
        | some config ↦ elim (world.tables.profiles config.profile) [
          | none ↦ none
          | some profile ↦ some (config.id, profile)
        ]
      ]

  -- The action of the intent, and the same action with the status of the result.
  unfoldable pub intent : ℕ → ℕ → Profile → Item F D → Status → Action
  intent id user profile item status = record {
    id = id;
    user = user;
    profile = profile.id;
    provider = ibkr;
    environment = paper;
    symbol = item_symbol item;
    side = item.side;
    status = status;
    order_id = [];
    link = [];
    audit_readable = true;
  }

  unfoldable pub conclude_audit :
      ℕ → ℕ → Profile → Item F D → List Action → Outcome F → Course → Audited F
  unfolding intent
  conclude_audit id user profile item actions outcome save_fails = refused_with none actions
  conclude_audit id user profile item actions outcome cancelled_before_post =
      left_open (actions ++ (intent id user profile item submitted ∷ [])) []
  conclude_audit id user profile item actions outcome cancelled_after_post =
      left_open (actions ++ (intent id user profile item submitted ∷ [])) (sent_of outcome.post)
  conclude_audit id user profile item actions outcome close_fails =
      left_open (actions ++ (intent id user profile item submitted ∷ [])) (sent_of outcome.post)
  conclude_audit id user profile item actions outcome returns =
      let saved = actions ++ (intent id user profile item submitted ∷ []) in
      let final =
        actions ++ (intent id user profile item (status_or_submitted outcome.status) ∷ []) in
      record {
        status = some (status_or_submitted outcome.status);
        actions = final;
        trace = committed saved ∷ (sent_of outcome.post ++ (committed final ∷ []));
      }

module _ {F D : Type 0} ⦃fl : Float F⦄ ⦃dl : Float D⦄ (decimals : Shares F D) where
  -- `id` is the id of the new row. The rows are read, and the intent is committed, at
  -- `moments.start`. A refresh that raises leaves the call with nothing done.
  unfoldable pub execute_ibkr_audited :
      ℕ → Settings → Moments → Broker F → Course → ℕ → Item F D → List Action → Audited F
  unfolding profile_for_item is_pending conclude_audit
  execute_ibkr_audited id settings moments broker ending user item actions =
      elim (profile_for_item moments.start user item) [
        | none ↦ refused_with (some block) actions
        | some (config, profile) ↦
            if not (profile.user == user)
            then refused_with (some block) actions
            else if any (is_pending user profile.id (item_symbol item)) actions
            then refused_with (some block) actions
            else elim (entry_authorization_blocker moments.start profile.id config) [
              | raised ↦ refused_with none actions
              | blocked reason ↦ refused_with (some block) actions
              | cleared ↦
                  conclude_audit id user profile item actions
                    (execute_ibkr decimals settings moments broker user item) ending
            ]
      ]
