-- ===== src/Exits/Eligible.antt =====
-- Which positions the evaluation of MT5 demo positions marks as exits.
use atlas_markets.Base.{
  ℕ, ◌≡◌, refl, sym, ap, ◌∙◌, Bool, true, false, not, ◌||◌, Option, none, some, List, [], ◌∷◌, ◌++◌,
  find, arith,
}
use atlas_markets.Base.Int.{ℤ, pos, leb_ℤ, eqb_ℤ}
use atlas_markets.Base.Text.{Text, codes, text_eq}
use atlas_markets.Base.Float.{Float, float_or_zero}
use atlas_markets.Exits.{
  BrokerPosition, Strategy, GeneratedSignal, ExitBlocker, ownership_not_verified,
  auto_trade_not_enabled, broker_protection_required, position_id_missing, listed,
  strategy_blockers, leaves, ExitItem, is_atlas, opposite_signal, or_raised, own_minimum,
  minimum_strength, exit_blockers, judgement_of, judge,
}

bind-some :
    {A B : Type 0} (o : Option A) (f : A → Option B) {b : B}
    → or_raised o f ≡ some b
    → (a : A) × (o ≡ some a) × (f a ≡ some b)
bind-some none f h = cc
bind-some (some a) f h = (a, refl, h)

append-empty : {A : Type 0} (xs ys : List A) → xs ++ ys ≡ [] → (xs ≡ []) × (ys ≡ [])
append-empty [] ys h = (refl, h)
append-empty (x ∷ xs) ys h = cc

listed-empty : (test : Bool) (blocker : ExitBlocker) → listed test blocker ≡ [] → test ≡ false
listed-empty false blocker h = refl
listed-empty true blocker h = cc

module _ {F : Type 0} ⦃fl : Float F⦄ where
  open fl use {num, le}

  -- The strategy of the symbol trades by itself.
  abbrev pub TradesItself : Strategy F → Type 0
  TradesItself cfg = (cfg.enabled ≡ true) × (text_eq cfg.mode (codes "AUTO_TRADE") ≡ true)

  strategy_blockers-none :
      (strategy : Option (Strategy F))
      → strategy_blockers strategy ≡ []
      → (cfg : Strategy F) × (strategy ≡ some cfg) × TradesItself cfg
  strategy_blockers-none none h = cc
  strategy_blockers-none (some cfg) h =
      let off =
        listed-empty (not cfg.enabled || not (text_eq cfg.mode (codes "AUTO_TRADE")))
          auto_trade_not_enabled h in
      (cfg, refl, (ground arith, ground arith))

  exit_blockers-none :
      (position : BrokerPosition F) (ticket : ℤ) (sl tp : F) (strategy : Option (Strategy F))
      → exit_blockers position ticket sl tp strategy ≡ []
      → (cfg : Strategy F) × (strategy ≡ some cfg)
        × TradesItself cfg
        × (is_atlas position.comment ≡ true)
        × (le sl (num 0 0) || le tp (num 0 0) ≡ false)
        × (leb_ℤ ticket (pos 0) ≡ false)
  unfolding exit_blockers
  exit_blockers-none position ticket sl tp strategy h =
      let (owned, h1) =
        append-empty (listed (not (is_atlas position.comment)) ownership_not_verified) _ h in
      let (configured, h2) = append-empty (strategy_blockers strategy) _ h1 in
      let (levels, numbered) =
        append-empty (listed (le sl (num 0 0) || le tp (num 0 0)) broker_protection_required) _
          h2 in
      let (cfg, e, itself) = strategy_blockers-none strategy configured in
      let atlas = listed-empty (not (is_atlas position.comment)) ownership_not_verified owned in
      (
        cfg,
        e,
        itself,
        ground arith,
        listed-empty (le sl (num 0 0) || le tp (num 0 0)) broker_protection_required levels,
        listed-empty (leb_ℤ ticket (pos 0)) position_id_missing numbered,
      )

  judgement_of-leaves :
      (strategy : Option (Strategy F)) (default : Option F) (is_buy : Bool)
      (signal : Option (GeneratedSignal F)) (blockers : List ExitBlocker)
      → judgement_of strategy default is_buy signal blockers ≡ some leaves
      → (s : GeneratedSignal F) × (blockers ≡ [])
        × (signal ≡ some s)
        × (opposite_signal is_buy s.decision ≡ true)
        × (le (minimum_strength (own_minimum strategy) default) s.strength ≡ true)
  unfolding judgement_of
  judgement_of-leaves strategy default is_buy signal (b ∷ bs) h = cc
  judgement_of-leaves strategy default is_buy none [] h = cc
  judgement_of-leaves strategy default is_buy (some s) [] h =
      (s, refl, refl, ground arith, ground arith)

  -- An item that is to be left is a position with a comment of ATLAS, a stop and a target above zero
  -- and a ticket above zero; the strategy of its symbol is enabled to trade by itself, and the signal of
  -- the candles is opposite to the side of the position and at least as strong as the minimum.
  pub judge-leaves :
      (profile_id : ℕ) (strategies : List (Strategy F)) (default : Option F)
      (signals : Text → Option (GeneratedSignal F)) (position : BrokerPosition F) {item : ExitItem}
      → judge profile_id strategies default signals position ≡ some item
      → item.judgement ≡ leaves
      → (sl : F) × (tp : F) × (cfg : Strategy F) × (s : GeneratedSignal F) × (position.ticket
          ≡ some item.ticket)
        × (leb_ℤ item.ticket (pos 0) ≡ false)
        × (is_atlas position.comment ≡ true)
        × (float_or_zero position.sl ≡ some sl)
        × (float_or_zero position.tp ≡ some tp)
        × (le sl (num 0 0) || le tp (num 0 0) ≡ false)
        × (find (λ row. text_eq row.symbol position.canonical) strategies ≡ some cfg)
        × TradesItself cfg
        × (signals position.canonical ≡ some s)
        × (opposite_signal item.is_buy s.decision ≡ true)
        × (le (minimum_strength cfg.minimum default) s.strength ≡ true)
  unfolding judge
  judge-leaves profile_id strategies default signals position {item} h exits =
      let (kind, e1, h1) = bind-some position.kind _ h in
      let (ticket, e2, h2) = bind-some position.ticket _ h1 in
      let (sl, e3, h3) = bind-some (float_or_zero position.sl) _ h2 in
      let (tp, e4, h4) = bind-some (float_or_zero position.tp) _ h3 in
      let strategy = find (λ row. text_eq row.symbol position.canonical) strategies in
      let is_buy = eqb_ℤ kind (pos 0) in
      let (judgement, e5, h5) =
        bind-some
          (judgement_of strategy default is_buy (signals position.canonical)
            (exit_blockers position ticket sl tp strategy))
          _ h4 in
      let same : judgement ≡ item.judgement = ground arith in
      let left : judgement_of strategy default is_buy (signals position.canonical)
            (exit_blockers position ticket sl tp strategy)
          ≡ some leaves =
        ground arith in
      let (s, clear, e6, opposite, strong) =
        judgement_of-leaves strategy default is_buy (signals position.canonical)
          (exit_blockers position ticket sl tp strategy) left in
      let (cfg, e7, itself, atlas, protected, has_ticket) =
        exit_blockers-none position ticket sl tp strategy clear in
      let of_ticket : ticket ≡ item.ticket = ground arith in
      let of_side : is_buy ≡ item.is_buy = ground arith in
      (
        sl,
        tp,
        cfg,
        s,
        e2 ∙ ap some of_ticket,
        ap (λ t. leb_ℤ t (pos 0)) (sym of_ticket) ∙ has_ticket,
        atlas,
        e3,
        e4,
        protected,
        e7,
        itself,
        e6,
        ap (λ b. opposite_signal b s.decision) (sym of_side) ∙ opposite,
        ap (λ c. le (minimum_strength (own_minimum c) default) s.strength) (sym e7) ∙ strong,
      )
