-- ===== src/Automation/Scan.antt =====
-- `run_safe_scan` of app/services/safe_automation.py and `interrupt_scan` of
-- app/services/scan_lifecycle.py: the counters and the row of a scan, whatever the execution of its
-- items does.
pub mod Count
use atlas_markets.Base.{
  ℕ, suc, ◌+◌, ◌≤◌, ◌≡◌, refl, Bool, true, false, not, ◌&&◌, ◌||◌, Option, none, some, List, [],
  ◌∷◌, ◌++◌, length, length-append, inl, inr, ◌⊎◌, arith, if◌then◌else◌, Bool-cases,
}
use atlas_markets.Rows.{
  Status, block, skip, submitted, executed, cancelled, exit_submitted, exit_executed,
}
use atlas_markets.Automation.Route.{Engine}

pub data ScanStatus : Type 0 where
  running completed failed interrupted : ScanStatus

-- A row of `automation_scans`.
pub record ScanRow : Type 0 where
  pub status : ScanStatus
  pub signals : ℕ
  pub approved : ℕ
  pub executed_count : ℕ

-- The execution of an item returns a status, raises, or is cancelled with the worker.
pub data Reply : Type 0 where
  returned : Status → Reply
  raised : Reply
  worker_cancelled : Reply

-- An item of the preflight: whether it is a PASS, how its execution ends, whether the execution
-- commits the session on its way, whether its action is saved and committed, and whether
-- `protect_saved_entry` returns where it is called.
pub record Turn : Type 0 where
  pub passes : Bool
  pub reply : Reply
  pub commits : Bool
  pub saves : Bool
  pub protects : Bool

-- An owner of AUTO_TRADE symbols; the preflight is none where it raises.
pub record Visit : Type 0 where
  pub active : Bool
  pub preflight : Option (List Turn)

-- The row in the session, the row as last committed, the statuses of `results`, and how many times
-- an execution was started.
pub record Scan : Type 0 where
  pub row : ScanRow
  pub saved : ScanRow
  pub results : List Status
  pub attempts : ℕ

pub data Flow : Type 0 where
  goes : Scan → Flow
  fails : Scan → Flow
  cancels : Scan → Flow

abbrev pub and_then : Flow → (Scan → Flow) → Flow
and_then (goes s) f = f s
and_then (fails s) f = fails s
and_then (cancels s) f = cancels s

abbrev pub count_executed : Status → ℕ
count_executed executed = 1
count_executed submitted = 0
count_executed cancelled = 0
count_executed exit_submitted = 0
count_executed exit_executed = 0
count_executed block = 0
count_executed skip = 0

abbrev pub with_result : Status → Scan → Scan
with_result status s = record s { results = s.results ++ (status ∷ []) }

-- The result is counted and the row committed.
abbrev pub counted_row : Status → Scan → Scan
counted_row status s =
    let row = record s.row { executed_count = s.row.executed_count + count_executed status } in
    record (with_result status s) { row = row; saved = row }

-- After the execution: the result is saved, an executed one counted, and the row committed.
unfoldable pub settle : Turn → Status → Scan → Flow
settle turn status s =
    let noted = with_result status s in
    if not turn.saves
    then fails noted
    else if turn.protects
    then goes (counted_row status s)
    else fails (counted_row status s)

abbrev pub after_reply : Turn → Reply → Scan → Flow
after_reply turn (returned status) s = settle turn status s
after_reply turn raised s = settle turn block s
after_reply turn worker_cancelled s = cancels s

-- The approval is counted, and an execution starts.
abbrev pub approve : Bool → Scan → Scan
approve commits s =
    let row = record s.row { signals = s.row.signals + 1; approved = s.row.approved + 1 } in
    record s { row = row; saved = if commits then row else s.saved; attempts = s.attempts + 1 }

unfoldable pub take_turn : Turn → Scan → Flow
unfolding settle
take_turn turn s =
    if turn.passes
    then after_reply turn turn.reply (approve turn.commits s)
    else if turn.saves
    then goes (with_result block s)
    else fails (with_result block s)

unfoldable pub take_turns : List Turn → Scan → Flow
take_turns [] s = goes s
take_turns (turn ∷ turns) s = and_then (take_turn turn s) (take_turns turns)

abbrev pub visit_owner : Visit → Scan → Flow
visit_owner visit s =
    if visit.active
    then elim visit.preflight [ none ↦ fails s | some turns ↦ take_turns turns s ]
    else goes s

unfoldable pub visit_owners : List Visit → Scan → Flow
visit_owners [] s = goes s
visit_owners (visit ∷ visits) s = and_then (visit_owner visit s) (visit_owners visits)

abbrev pub close : ScanStatus → ScanRow → ScanRow
close status row = record row { status = status }

abbrev pub is_running : ScanStatus → Bool
is_running running = true
is_running completed = false
is_running failed = false
is_running interrupted = false

-- `interrupt_scan`: after a rollback, a scan that is running is finished.
unfoldable pub interrupt : Scan → Scan
interrupt s =
    let row = if is_running s.saved.status then close interrupted s.saved else s.saved in
    record s { row = row; saved = row }

-- The end of a scan: a failure and a cancellation roll the session back to the last commit.
unfoldable pub finish : Flow → Scan
unfolding interrupt
finish (goes s) = record s { row = close completed s.row; saved = close completed s.row }
finish (fails s) = record s { row = close failed s.saved; saved = close failed s.saved }
finish (cancels s) = interrupt s

abbrev pub new_row : ScanRow
new_row = record { status = running; signals = 0; approved = 0; executed_count = 0 }

abbrev pub new_scan : Scan
new_scan = record { row = new_row; saved = new_row; results = []; attempts = 0 }

-- None where the scan is skipped: the engine is off, or no symbol is on AUTO_TRADE.
unfoldable pub run_safe_scan : Engine → List Visit → Option Scan
unfolding visit_owners take_turns take_turn finish
run_safe_scan engine [] = none
run_safe_scan engine (visit ∷ visits) =
    if not engine.enabled || engine.killed || not engine.auto_execute_paper
    then none
    else some (finish (visit_owners (visit ∷ visits) new_scan))
