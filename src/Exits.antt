-- ===== src/Exits.antt =====
-- The exits of MT5 demo positions: `evaluate_mt5_exit_signals` of
-- app/services/position_lifecycle.py, which only reads.
pub mod Manager
pub mod Sound
pub mod Eligible
use atlas_markets.Base.{
  ℕ, Bool, true, false, not, ◌&&◌, ◌||◌, ◌==◌, Option, none, some, List, [], ◌∷◌, ◌++◌, find,
  if◌then◌else◌,
}
use atlas_markets.Base.Int.{ℤ, pos, leb_ℤ, eqb_ℤ}
use atlas_markets.Base.Text.{Text, codes, text_eq, starts_with, upper}
use atlas_markets.Base.Float.{Float, Raw, absent, malformed, number, float_or_zero}

-- A row of the bridge's positions: `canonical` is `_canonical` of its symbol; a number is none where
-- `int` raises, and zero where it is missing.
pub record BrokerPosition (F : Type 0) : Type 0 where
  pub canonical : Text
  pub kind : Option ℤ
  pub ticket : Option ℤ
  pub comment : Text
  pub sl : Raw F
  pub tp : Raw F

-- A row of `symbol_strategies`, by its canonical symbol.
pub record Strategy (F : Type 0) : Type 0 where
  pub symbol : Text
  pub enabled : Bool
  pub mode : Text
  pub minimum : Option F

pub data Decision : Type 0 where
  buy sell hold : Decision

-- What `generate_signal` makes of the candles.
pub record GeneratedSignal (F : Type 0) : Type 0 where
  pub decision : Decision
  pub strength : F

pub data ExitBlocker : Type 0 where
  ownership_not_verified strategy_not_configured auto_trade_not_enabled : ExitBlocker
  broker_protection_required position_id_missing : ExitBlocker

-- An entry of `items`: what blocks the position, or whether it is to be left.
pub data Judgement : Type 0 where
  blocked : List ExitBlocker → Judgement
  keeps leaves : Judgement

pub record ExitItem : Type 0 where
  pub profile_id : ℕ
  pub symbol : Text
  pub ticket : ℤ
  pub is_buy : Bool
  pub judgement : Judgement

abbrev pub listed : Bool → ExitBlocker → List ExitBlocker
listed test blocker = if test then blocker ∷ [] else []

abbrev pub is_atlas : Text → Bool
is_atlas comment = starts_with (codes "ATLAS") (upper comment)

-- `_opposite_signal`, of the position's side
abbrev pub opposite_signal : Bool → Decision → Bool
opposite_signal true sell = true
opposite_signal false buy = true
opposite_signal _ _ = false

abbrev pub or_raised : {A B : Type 0} → Option A → (A → Option B) → Option B
or_raised none f = none
or_raised (some a) f = f a

-- A demo profile of the user: whether it is ready, and the positions, none where the credentials
-- or the bridge's answer cannot be read.
pub record DemoProfile (F : Type 0) : Type 0 where
  pub id : ℕ
  pub is_ready : Bool
  pub positions : Option (List (BrokerPosition F))
  pub signals : Text → Option (GeneratedSignal F)

abbrev pub or_default : {A : Type 0} → Option A → Option A → Option A
or_default none default = default
or_default (some a) default = some a

module _ {F : Type 0} ⦃fl : Float F⦄ where
  open fl use {num, le, eq}

  abbrev pub strategy_blockers : Option (Strategy F) → List ExitBlocker
  strategy_blockers none = strategy_not_configured ∷ []
  strategy_blockers (some cfg) =
      listed (not cfg.enabled || not (text_eq cfg.mode (codes "AUTO_TRADE"))) auto_trade_not_enabled

  -- `_minimum_strength`; a minimum of zero is 65, too.
  unfoldable pub minimum_strength : Option F → Option F → F
  minimum_strength own default = elim (or_default own default) [
    | none ↦ num 65 0
    | some m ↦ if eq m (num 0 0) then num 65 0 else m
  ]

  unfoldable pub exit_blockers :
      BrokerPosition F → ℤ → F → F → Option (Strategy F) → List ExitBlocker
  exit_blockers position ticket sl tp strategy =
      listed (not (is_atlas position.comment)) ownership_not_verified
      ++ (strategy_blockers strategy
          ++ (listed (le sl (num 0 0) || le tp (num 0 0)) broker_protection_required
              ++ listed (leb_ℤ ticket (pos 0)) position_id_missing))

  abbrev pub own_minimum : Option (Strategy F) → Option F
  own_minimum none = none
  own_minimum (some cfg) = cfg.minimum

  -- `signal` is what the candles of the symbol give, none where reading or analysing them raises.
  unfoldable pub judgement_of :
      Option (Strategy F)
      → Option F
      → Bool
      → Option (GeneratedSignal F)
      → List ExitBlocker
      → Option Judgement
  unfolding minimum_strength
  judgement_of strategy default is_buy signal (b ∷ bs) = some (blocked (b ∷ bs))
  judgement_of strategy default is_buy signal [] = or_raised signal (λ s. some (
      if opposite_signal is_buy s.decision
        && le (minimum_strength (own_minimum strategy) default) s.strength
      then leaves
      else keeps))

  -- One turn of the loop over the positions; none is an exception.
  unfoldable pub judge :
      ℕ
      → List (Strategy F)
      → Option F
      → (Text → Option (GeneratedSignal F))
      → BrokerPosition F
      → Option ExitItem
  unfolding exit_blockers judgement_of
  judge profile_id strategies default signals position = or_raised position.kind (λ kind.
      or_raised position.ticket (λ ticket. or_raised (float_or_zero position.sl) (λ sl.
        or_raised (float_or_zero position.tp) (λ tp.
          let strategy = find (λ s. text_eq s.symbol position.canonical) strategies in
          let is_buy = eqb_ℤ kind (pos 0) in
          or_raised
            (judgement_of strategy default is_buy (signals position.canonical)
              (exit_blockers position ticket sl tp strategy))
            (λ judgement. some (record {
              profile_id = profile_id;
              symbol = position.canonical;
              ticket = ticket;
              is_buy = is_buy;
              judgement = judgement;
            }))))))

  -- The positions up to the first exception
  unfoldable pub judge_all :
      ℕ
      → List (Strategy F)
      → Option F
      → (Text → Option (GeneratedSignal F))
      → List (BrokerPosition F)
      → List ExitItem
  unfolding judge
  judge_all profile_id strategies default signals [] = []
  judge_all profile_id strategies default signals (position ∷ positions) =
      let rest = judge_all profile_id strategies default signals positions in
      elim (judge profile_id strategies default signals position) [
        | none ↦ []
        | some item ↦ item ∷ rest
      ]

  unfoldable pub evaluate_mt5_exit_signals :
      List (Strategy F) → Option F → List (DemoProfile F) → List ExitItem
  unfolding judge_all
  evaluate_mt5_exit_signals strategies default [] = []
  evaluate_mt5_exit_signals strategies default (profile ∷ profiles) =
      let rest = evaluate_mt5_exit_signals strategies default profiles in
      (if profile.is_ready
        then (elim profile.positions [
          | none ↦ []
          | some positions ↦ judge_all profile.id strategies default profile.signals positions
        ])
        else [])
      ++ rest
