-- ===== src/Exits/Sound.antt =====
-- Which positions the manager of MT5 demo positions closes.
use atlas_markets.Base.{
  ℕ, suc, ◌+◌, ◌≡◌, refl, Bool, true, false, not, ◌&&◌, ◌⊎◌, Option, none, some, List, [], ◌∷◌,
  length, All, arith, Bool-cases, inl, inr, if◌then◌else◌,
}
use atlas_markets.Base.Int.{ℤ}
use atlas_markets.Base.Text.{codes, text_eq, upper}
use atlas_markets.Automation.Mt5.{trading_off}
use atlas_markets.Exits.{BrokerPosition, ExitItem, is_atlas}
use atlas_markets.Exits.Manager.{
  DemoRow, Answers, ExitAction, ClosePost, Tally, Turn, goes, raises, Check, refuses,
  closes_position, fails, position_of, check_position, check_positions, check_health, check_row,
  check_exit, act, is_exit, take_item, take_items, take_users, and_goes, no_mt5_demo_profiles,
  Ending, skipped, completed, failed, EngineState, no_tally, ended, no_users,
  run_mt5_position_manager,
}

-- The answers before a close: the profile is an MT5 demo one, the server a demo one that allows
-- trading, and it lists a position of this ticket with a comment of ATLAS.
abbrev pub IsClosable : {F : Type 0} → ExitItem → Answers F → Type 0
IsClosable {F} item answers =
    (row : DemoRow) × (trade_allowed : Option Bool) × (positions : List (BrokerPosition F))
    × (current : BrokerPosition F) × (answers.profile ≡ some row)
    × (text_eq (upper row.provider) (codes "MT5") && text_eq (upper row.environment) (codes "DEMO")
        ≡ true)
    × (answers.health ≡ some (true, trade_allowed))
    × (trading_off trade_allowed ≡ false)
    × (answers.positions ≡ some positions)
    × (position_of item.ticket positions ≡ some (some current))
    × (is_atlas current.comment ≡ true)

abbrev pub IsExit : {F : Type 0} → ClosePost F → Type 0
IsExit post = (is_exit post.item.judgement ≡ true) × IsClosable post.item post.answers

abbrev pub executed_actions : List ExitAction → ℕ
executed_actions [] = 0
executed_actions (action ∷ actions) =
    let rest = executed_actions actions in if action.is_executed then suc rest else rest

-- Every close was one of an exit, and the counts are those of the closes, of which each is an
-- executed action.
abbrev pub IsCounted : {F : Type 0} → Tally F → Type 0
IsCounted tally =
    All IsExit tally.posts
    × (tally.executed_count ≡ length tally.posts)
    × (executed_actions tally.actions ≡ length tally.posts)
    × (tally.approved ≡ tally.signals)

abbrev pub Holds : {F : Type 0} → Turn F → Type 0
Holds (goes tally) = IsCounted tally
Holds (raises tally) = All IsExit tally.posts

-- What a run that is not skipped needs, and how it ends
abbrev pub EndsWell : {F : Type 0} → EngineState → Ending F → Type 0
EndsWell state (skipped reason) =
    state.enabled && not state.killed && state.auto_execute_paper ≡ false
    ⊎ (reason ≡ no_mt5_demo_profiles)
EndsWell state (completed tally) =
    (state.enabled && not state.killed && state.auto_execute_paper ≡ true) × IsCounted tally
EndsWell state (failed posts) =
    (state.enabled && not state.killed && state.auto_execute_paper ≡ true) × All IsExit posts

check_position_closable :
    {F : Type 0} (found : Option (Option (BrokerPosition F)))
    → check_position found ≡ closes_position
    → (current : BrokerPosition F) × (found ≡ some (some current))
      × (is_atlas current.comment ≡ true)
check_position_closable none h = cc
check_position_closable (some none) h = cc
check_position_closable (some (some current)) h = (current, refl, ground arith)

check_positions_closable :
    {F : Type 0} (ticket : ℤ) (answer : Option (List (BrokerPosition F)))
    → check_positions ticket answer ≡ closes_position
    → (positions : List (BrokerPosition F)) × (current : BrokerPosition F) × (answer
        ≡ some positions)
      × (position_of ticket positions ≡ some (some current))
      × (is_atlas current.comment ≡ true)
check_positions_closable ticket none h = cc
check_positions_closable ticket (some positions) h =
    let (current, found, atlas) = check_position_closable (position_of ticket positions) h in
    (positions, current, refl, found, atlas)

check_health_closable :
    {F : Type 0} (item : ExitItem) (answers : Answers F) (health : Option (Bool × Option Bool))
    → check_health item answers health ≡ closes_position
    → (trade_allowed : Option Bool) × (health ≡ some (true, trade_allowed))
      × (trading_off trade_allowed ≡ false)
      × (check_positions item.ticket answers.positions ≡ closes_position)
check_health_closable item answers none h = cc
check_health_closable item answers (some (false, trade_allowed)) h = cc
check_health_closable item answers (some (true, trade_allowed)) h =
    elim (Bool-cases (trading_off trade_allowed)) [
      | inl off ↦ ground arith
      | inr on ↦ (trade_allowed, refl, on, rw on at h)
    ]

check_row_closable :
    {F : Type 0} (item : ExitItem) (answers : Answers F) (found : Option DemoRow)
    → check_row item answers found ≡ closes_position
    → (row : DemoRow) × (found ≡ some row)
      × (text_eq (upper row.provider) (codes "MT5")
            && text_eq (upper row.environment) (codes "DEMO")
          ≡ true)
      × (check_health item answers answers.health ≡ closes_position)
check_row_closable item answers none h = cc
check_row_closable item answers (some row) h = (row, refl, ground arith, ground arith)

check_exit-IsClosable :
    {F : Type 0} (item : ExitItem) (answers : Answers F)
    → check_exit item answers ≡ closes_position
    → IsClosable item answers
unfolding check_exit
check_exit-IsClosable item answers h =
    let (row, e1, mt5, h1) = check_row_closable item answers answers.profile h in
    let (trade_allowed, e2, on, h2) = check_health_closable item answers answers.health h1 in
    let (positions, current, e3, found, atlas) =
      check_positions_closable item.ticket answers.positions h2 in
    (row, trade_allowed, positions, current, e1, mt5, e2, on, e3, found, atlas)

act-Holds :
    {F : Type 0} (item : ExitItem) (answers : Answers F) (tally : Tally F) (check : Check)
    → is_exit item.judgement ≡ true
    → (check ≡ closes_position → IsClosable item answers)
    → IsCounted tally
    → Holds (act item answers tally check)
unfolding act
act-Holds item answers tally (refuses reason) exits closable counted = counted
act-Holds item answers tally fails exits closable (posts, a, b, c) = posts
act-Holds item answers tally closes_position exits closable (posts, a, b, c) =
    elim (Bool-cases answers.closes) [
      | inl answered ↦
          rw (answered) (((exits, closable refl), posts), omega (arith, a), omega (arith, b), c)
      | inr lost ↦ rw (lost) ((exits, closable refl), posts)
    ]

take_item-Holds :
    {F : Type 0} (item : ExitItem) (answers : Answers F) (tally : Tally F)
    → IsCounted tally
    → Holds (take_item item answers tally)
unfolding take_item
take_item-Holds item answers tally (posts, a, b, c) = elim (Bool-cases (is_exit item.judgement)) [
  | inr waits ↦ rw (waits, take_item) (posts, a, b, c)
  | inl exits ↦
      rw (exits, take_item)
        (act-Holds item answers
          (record tally { signals = suc tally.signals; approved = suc tally.approved })
          (check_exit item answers) exits (check_exit-IsClosable item answers)
          (posts, a, b, omega (arith, c)))
]

and_goes-Holds :
    {F : Type 0} (turn : Turn F) (f : Tally F → Turn F)
    → Holds turn
    → ((next : Tally F) → IsCounted next → Holds (f next))
    → Holds (and_goes turn f)
and_goes-Holds (goes next) f counted step = step next counted
and_goes-Holds (raises last) f posts step = posts

take_items-Holds :
    {F : Type 0} (items : List (ExitItem × Answers F)) (tally : Tally F)
    → IsCounted tally
    → Holds (take_items items tally)
unfolding take_items
take_items-Holds [] tally counted = counted
take_items-Holds ((item, answers) ∷ rest) tally counted =
    and_goes-Holds (take_item item answers tally) (take_items rest)
      (take_item-Holds item answers tally counted) (λ next after. take_items-Holds rest next after)

take_users-Holds :
    {F : Type 0} (users : List (Option (List (ExitItem × Answers F)))) (tally : Tally F)
    → IsCounted tally
    → Holds (take_users users tally)
unfolding take_users
take_users-Holds [] tally counted = counted
take_users-Holds (none ∷ users) tally (posts, a, b, c) = posts
take_users-Holds (some items ∷ users) tally counted =
    let begun = record tally { symbols = tally.symbols + length items } in
    and_goes-Holds (take_items items begun) (take_users users)
      (take_items-Holds items begun counted) (λ next after. take_users-Holds users next after)

ended-EndsWell :
    {F : Type 0} (state : EngineState) (turn : Turn F)
    → state.enabled && not state.killed && state.auto_execute_paper ≡ true
    → Holds turn
    → EndsWell state (ended turn)
ended-EndsWell state (goes tally) on counted = (on, counted)
ended-EndsWell state (raises tally) on posts = (on, posts)

-- However the database and the bridge answer: the manager is skipped unless the engine runs, is not
-- killed and executes, and there are users. Every position that it then closes, also in a run that
-- fails, is one of an exit item at an MT5 demo profile, on a demo server that allows trading and
-- lists the position of this ticket as one of ATLAS. A completed scan counts as many executions as
-- there were closes, each with its executed action, and as many approvals as signals.
pub run_mt5_position_manager-EndsWell :
    {F : Type 0} (state : EngineState) (users : List (Option (List (ExitItem × Answers F))))
    → EndsWell state (run_mt5_position_manager state users)
unfolding run_mt5_position_manager
run_mt5_position_manager-EndsWell state users = elim (Bool-cases state.enabled) [
  | inr off ↦ rw (off, run_mt5_position_manager) (inl refl)
  | inl on ↦ elim (Bool-cases state.killed) [
    | inl killed ↦ rw (on, killed, run_mt5_position_manager) (inl refl)
    | inr alive ↦ elim (Bool-cases state.auto_execute_paper) [
      | inr idle ↦ rw (on, alive, idle, run_mt5_position_manager) (inl refl)
      | inl executes ↦ elim (Bool-cases (no_users users)) [
        | inl nobody ↦ rw (on, alive, executes, nobody, run_mt5_position_manager) (inr refl)
        | inr somebody ↦
            rw (on, alive, executes, somebody, run_mt5_position_manager)
              (ended-EndsWell (record { enabled = true; killed = false; auto_execute_paper = true })
                (take_users users no_tally) refl
                (take_users-Holds users no_tally (tt, refl, refl, refl)))
      ]
    ]
  ]
]
