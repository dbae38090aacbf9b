-- ===== src/Tests/Exits.antt =====
-- Runs of the exits of MT5 demo positions.
use atlas_markets.Base.{ℕ, ◌≡◌, ◌||◌, refl, true, false, Option, none, some, [], ◌∷◌, length, find}
use atlas_markets.Base.Int.{pos, leb_ℤ}
use atlas_markets.Base.Text.{Text, codes, text_eq}
use atlas_markets.Base.Float.{absent, number, float_or_zero}
use atlas_markets.Base.Float.Fixed.{Fixed, fixed_float}
use atlas_markets.Exits.{
  BrokerPosition, Strategy, sell, GeneratedSignal, blocked, leaves, ExitItem,
  ownership_not_verified, broker_protection_required, is_atlas, opposite_signal, minimum_strength,
  judge, evaluate_mt5_exit_signals,
}
use atlas_markets.Exits.Manager.{
  Answers, Ending, completed, failed, EngineState, run_mt5_position_manager,
}
use atlas_markets.Exits.Sound.{EndsWell, run_mt5_position_manager-EndsWell}
use atlas_markets.Exits.Eligible.{TradesItself, judge-leaves}

abbrev dec : ℕ → ℕ → Fixed
dec = fixed_float.num

abbrev position : BrokerPosition Fixed
position = record {
  canonical = codes "EURUSD";
  kind = some (pos 0);
  ticket = some (pos 71);
  comment = codes "atlas auto";
  sl = number (dec 105 2);
  tp = number (dec 115 2);
}

abbrev strategy : Strategy Fixed
strategy = record {
  symbol = codes "EURUSD";
  enabled = true;
  mode = codes "AUTO_TRADE";
  minimum = none;
}

abbrev falling : Text → Option (GeneratedSignal Fixed)
falling symbol = some (record { decision = sell; strength = dec 70 0 })

abbrev leaving : ExitItem
leaving = record {
  profile_id = 4;
  symbol = codes "EURUSD";
  ticket = pos 71;
  is_buy = true;
  judgement = leaves;
}

abbrev bare : BrokerPosition Fixed
bare = record position { comment = codes "manual"; tp = absent }

evaluated :
    evaluate_mt5_exit_signals (strategy ∷ []) none (
      record { id = 4; is_ready = true; positions = some (position ∷ bare ∷ []); signals = falling }
      ∷ [])
    ≡ leaving
      ∷ record leaving {
        judgement = blocked (ownership_not_verified ∷ broker_protection_required ∷ []);
      }
      ∷ []
unfolding evaluate_mt5_exit_signals
evaluated = refl

leaves_at_65 : judge 4 (strategy ∷ []) none falling position ≡ some leaving
unfolding judge
leaves_at_65 = refl

judge-leaves_example :
    (sl : Fixed) × (tp : Fixed) × (cfg : Strategy Fixed) × (s : GeneratedSignal Fixed)
    × (position.ticket ≡ some (pos 71))
    × (leb_ℤ (pos 71) (pos 0) ≡ false)
    × (is_atlas position.comment ≡ true)
    × (float_or_zero position.sl ≡ some sl)
    × (float_or_zero position.tp ≡ some tp)
    × (fixed_float.le sl (dec 0 0) || fixed_float.le tp (dec 0 0) ≡ false)
    × (find (λ row. text_eq row.symbol position.canonical) (strategy ∷ []) ≡ some cfg)
    × TradesItself cfg
    × (falling position.canonical ≡ some s)
    × (opposite_signal true s.decision ≡ true)
    × (fixed_float.le (minimum_strength cfg.minimum none) s.strength ≡ true)
judge-leaves_example = judge-leaves 4 (strategy ∷ []) none falling position leaves_at_65 refl

abbrev engine : EngineState
engine = record { enabled = true; killed = false; auto_execute_paper = true }

abbrev answers : Answers Fixed
answers = record {
  profile = some (record { provider = codes "MT5"; environment = codes "DEMO"; readable = true });
  health = some (true, some true);
  positions = some (position ∷ []);
  closes = true;
}

abbrev lost : Answers Fixed
lost = record answers { closes = false }

abbrev actions_of : Ending Fixed → ℕ
actions_of (completed tally) = length tally.actions
actions_of _ = 0

abbrev posts_of : Ending Fixed → ℕ
posts_of (completed tally) = length tally.posts
posts_of (failed posts) = length posts
posts_of _ = 0

closed_one : actions_of (run_mt5_position_manager engine (some ((leaving, answers) ∷ []) ∷ [])) ≡ 1
unfolding run_mt5_position_manager
closed_one = refl

-- The first position is closed and booked, the answer of the second close is lost: the scan fails,
-- and no action of either close is left.
failed_after_close :
    (posts_of
        (run_mt5_position_manager engine (some ((leaving, answers) ∷ (leaving, lost) ∷ []) ∷ []))
      ≡ 2)
    × (actions_of
          (run_mt5_position_manager engine (some ((leaving, answers) ∷ (leaving, lost) ∷ []) ∷ []))
        ≡ 0)
unfolding run_mt5_position_manager
failed_after_close = (refl, refl)

run_mt5_position_manager-EndsWell_example :
    EndsWell engine
      (run_mt5_position_manager engine (some ((leaving, answers) ∷ (leaving, lost) ∷ []) ∷ []))
run_mt5_position_manager-EndsWell_example =
    run_mt5_position_manager-EndsWell engine (some ((leaving, answers) ∷ (leaving, lost) ∷ []) ∷ [])
