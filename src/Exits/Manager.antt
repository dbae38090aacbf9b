-- ===== src/Exits/Manager.antt =====
-- `run_mt5_position_manager` of app/services/mt5_position_manager.py: the positions that it closes
-- and the actions that it saves.
use atlas_markets.Base.{
  ℕ, suc, ◌+◌, Bool, true, false, not, ◌||◌, Option, none, some, List, [], ◌∷◌, length,
  if◌then◌else◌,
}
use atlas_markets.Base.Int.{ℤ, eqb_ℤ}
use atlas_markets.Base.Text.{Text, codes, text_eq, upper}
use atlas_markets.Automation.Mt5.{trading_off}
use atlas_markets.Exits.{BrokerPosition, ExitItem, Judgement, leaves, is_atlas}

-- A row of `broker_profiles`, with whether its credentials can be read.
pub record DemoRow : Type 0 where
  pub provider : Text
  pub environment : Text
  pub readable : Bool

-- What the database and the bridge answer while an item is handled, none where a read raises:
-- `health` says whether the server's name holds "demo" and whether its terminal, when it is not
-- empty, allows trading; `closes` whether the POST is answered.
pub record Answers (F : Type 0) : Type 0 where
  pub profile : Option DemoRow
  pub health : Option (Bool × Option Bool)
  pub positions : Option (List (BrokerPosition F))
  pub closes : Bool

pub data ExitReason : Type 0 where
  strong_opposite_signal profile_not_found mt5_demo_only mt5_demo_server_required : ExitReason
  mt5_algo_trading_disabled position_not_found exit_ownership_not_verified : ExitReason

-- A row of `automation_actions`: the position, and how the exit ended
pub record ExitAction : Type 0 where
  pub profile_id : ℕ
  pub ticket : ℤ
  pub is_executed : Bool
  pub reason : ExitReason

-- What `close_demo_position` is called with, beside the answers that came before it.
pub record ClosePost (F : Type 0) : Type 0 where
  pub item : ExitItem
  pub answers : Answers F

-- The scan's row with its actions in the session, and the calls that were sent.
pub record Tally (F : Type 0) : Type 0 where
  pub symbols : ℕ
  pub signals : ℕ
  pub approved : ℕ
  pub executed_count : ℕ
  pub actions : List ExitAction
  pub posts : List (ClosePost F)

-- A turn goes on, or an exception leaves the loop.
pub data Turn (F : Type 0) : Type 0 where
  goes raises : Tally F → Turn F

abbrev pub and_goes : {F : Type 0} → Turn F → (Tally F → Turn F) → Turn F
and_goes (goes tally) f = f tally
and_goes (raises tally) f = raises tally

-- How a check of the item ends: a result that is saved, the close of the position, an exception.
pub data Check : Type 0 where
  refuses : ExitReason → Check
  closes_position fails : Check

abbrev pub is_exit : Judgement → Bool
is_exit leaves = true
is_exit _ = false

module _ {F : Type 0} where
  abbrev pub has_ticket : ℤ → BrokerPosition F → Option Bool
  has_ticket ticket position = elim position.ticket [ none ↦ none | some t ↦ some (eqb_ℤ t ticket) ]

  -- `next((p for p in positions if int(p.ticket) == ticket), None)`, none where `int` raises
  abbrev pub position_of : ℤ → List (BrokerPosition F) → Option (Option (BrokerPosition F))
  position_of ticket [] = some none
  position_of ticket (position ∷ positions) =
      let rest = position_of ticket positions in
      elim (has_ticket ticket position) [
        | none ↦ none
        | some found ↦ if found then some (some position) else rest
      ]

  abbrev pub check_position : Option (Option (BrokerPosition F)) → Check
  check_position none = fails
  check_position (some none) = refuses position_not_found
  check_position (some (some current)) =
      if is_atlas current.comment then closes_position else refuses exit_ownership_not_verified

  abbrev pub check_positions : ℤ → Option (List (BrokerPosition F)) → Check
  check_positions ticket none = fails
  check_positions ticket (some positions) = check_position (position_of ticket positions)

  abbrev pub check_health : ExitItem → Answers F → Option (Bool × Option Bool) → Check
  check_health item answers none = fails
  check_health item answers (some (is_demo, trade_allowed)) =
      if not is_demo
      then refuses mt5_demo_server_required
      else if trading_off trade_allowed
      then refuses mt5_algo_trading_disabled
      else check_positions item.ticket answers.positions

  abbrev pub check_row : ExitItem → Answers F → Option DemoRow → Check
  check_row item answers none = refuses profile_not_found
  check_row item answers (some row) =
      if not (text_eq (upper row.provider) (codes "MT5"))
        || not (text_eq (upper row.environment) (codes "DEMO"))
      then refuses mt5_demo_only
      else if row.readable
      then check_health item answers answers.health
      else fails

  unfoldable pub check_exit : ExitItem → Answers F → Check
  check_exit item answers = check_row item answers answers.profile

  -- `_persist_exit_action`
  abbrev pub persist : ExitItem → Bool → ExitReason → Tally F → Tally F
  persist item is_executed reason tally = record tally {
    actions =
        record {
          profile_id = item.profile_id;
          ticket = item.ticket;
          is_executed = is_executed;
          reason = reason;
        }
        ∷ tally.actions;
  }

  abbrev pub sent : ExitItem → Answers F → Tally F → Tally F
  sent item answers tally = record tally {
    posts = record { item = item; answers = answers } ∷ tally.posts;
  }

  unfoldable pub act : ExitItem → Answers F → Tally F → Check → Turn F
  act item answers tally (refuses reason) = goes (persist item false reason tally)
  act item answers tally fails = raises tally
  act item answers tally closes_position =
      let posted = sent item answers tally in
      if answers.closes
      then goes (
          persist item true strong_opposite_signal
            (record posted { executed_count = suc tally.executed_count }))
      else raises posted

  -- One item of the evaluation
  unfoldable pub take_item : ExitItem → Answers F → Tally F → Turn F
  unfolding check_exit act
  take_item item answers tally =
      if is_exit item.judgement
      then act item answers
          (record tally { signals = suc tally.signals; approved = suc tally.approved })
          (check_exit item answers)
      else goes tally

  unfoldable pub take_items : List (ExitItem × Answers F) → Tally F → Turn F
  unfolding take_item
  take_items [] tally = goes tally
  take_items ((item, answers) ∷ rest) tally =
      and_goes (take_item item answers tally) (λ next. take_items rest next)

  -- The users, each with the items of the evaluation, none where the evaluation raises
  unfoldable pub take_users : List (Option (List (ExitItem × Answers F))) → Tally F → Turn F
  unfolding take_items
  take_users [] tally = goes tally
  take_users (none ∷ users) tally = raises tally
  take_users (some items ∷ users) tally =
      and_goes (take_items items (record tally { symbols = tally.symbols + length items }))
        (λ next. take_users users next)

pub data SkipReason : Type 0 where
  engine_disabled kill_switch simulation_execution_disabled no_mt5_demo_profiles : SkipReason

-- How the run ends; a scan that failed has been rolled back to its first row, without the actions.
pub data Ending (F : Type 0) : Type 0 where
  skipped : SkipReason → Ending F
  completed : Tally F → Ending F
  failed : List (ClosePost F) → Ending F

pub record EngineState : Type 0 where
  pub enabled : Bool
  pub killed : Bool
  pub auto_execute_paper : Bool

abbrev pub no_tally : {F : Type 0} → Tally F
no_tally = record {
  symbols = 0;
  signals = 0;
  approved = 0;
  executed_count = 0;
  actions = [];
  posts = [];
}

abbrev pub ended : {F : Type 0} → Turn F → Ending F
ended (goes tally) = completed tally
ended (raises tally) = failed tally.posts

abbrev pub no_users : {A : Type 0} → List A → Bool
no_users [] = true
no_users (a ∷ rest) = false

unfoldable pub run_mt5_position_manager :
    {F : Type 0} → EngineState → List (Option (List (ExitItem × Answers F))) → Ending F
unfolding take_users
run_mt5_position_manager state users =
    if not state.enabled
    then skipped engine_disabled
    else if state.killed
    then skipped kill_switch
    else if not state.auto_execute_paper
    then skipped simulation_execution_disabled
    else if no_users users
    then skipped no_mt5_demo_profiles
    else ended (take_users users no_tally)
