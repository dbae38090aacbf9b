-- ===== src/Automation/Scan/Count.antt =====
-- The counters of a scan, in every run of `run_safe_scan`.
use atlas_markets.Base.{ℕ, ◌+◌, ◌≤◌, ◌≡◌, ◌≢◌, List, [], ◌∷◌}
use atlas_markets.Rows.{Status}
use atlas_markets.Automation.Scan.{
  running, completed, Scan, Flow, goes, fails, cancels, count_executed,
}

-- The results that report an execution.
abbrev pub total : List Status → ℕ
total [] = 0
total (status ∷ rest) = count_executed status + total rest

-- The row in the session, and the row as committed.
record IsLive (s : Scan) : Type 0 where
  open_row : s.row.status ≡ running
  signals : s.row.signals ≡ s.row.approved
  approved : s.row.approved ≡ s.attempts
  executions : s.row.executed_count ≡ total s.results
  bounded : total s.results ≤ s.attempts

record IsSaved (s : Scan) : Type 0 where
  open_row : s.saved.status ≡ running
  signals : s.saved.signals ≡ s.saved.approved
  executions : s.saved.executed_count ≤ s.saved.approved
  bounded : s.saved.approved ≤ s.attempts

abbrev Holds : Flow → Type 0
Holds (goes s) = IsLive s × IsSaved s
Holds (fails s) = IsSaved s
Holds (cancels s) = IsSaved s

-- One execution is under way: it has been counted as an attempt and has no result yet.
record IsOpen (s : Scan) : Type 0 where
  live : IsLive s
  saved : IsSaved s
  room : total s.results + 1 ≤ s.attempts

-- A scan that is over: its row is committed, and counts no more approvals than executions that
-- were started and no more executions than approvals; a completed one counts exactly.
pub record IsCounted (s : Scan) : Type 0 where
  pub committed : s.row ≡ s.saved
  pub over : s.row.status ≢ running
  pub signals : s.row.signals ≡ s.row.approved
  pub executions : s.row.executed_count ≤ s.row.approved
  pub approvals : s.row.approved ≤ s.attempts
  pub exact :
      s.row.status ≡ completed
      → (s.row.approved ≡ s.attempts) × (s.row.executed_count ≡ total s.results)
