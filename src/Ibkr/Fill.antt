-- ===== src/Ibkr/Fill.antt =====
-- `_verify_ibkr_fill` of app/services/safe_automation.py: at most six reads of an order's status.
use atlas_markets.Base.{
  ℕ, zero, suc, ◌+◌, ◌≡◌, Bool, true, false, ◌&&◌, Option, none, some, List, [], ◌∷◌, inl, inr,
  Option-cases, arith, if◌then◌else◌, ◌<◌,
}
use atlas_markets.Base.Text.{Text, codes, mem_text, upper}
use atlas_markets.Base.Float.{Float, Raw}
use atlas_markets.Ibkr.Shares.{
  parsed, ibkr_fill_is_complete, IsComplete, ibkr_fill_is_complete-IsComplete,
}

pub record StatusRow (F : Type 0) : Type 0 where
  pub status : Text
  pub filled : Raw F
  pub remaining : Raw F

pub data Verdict : Type 0 where
  filled cancelled submitted : Verdict

abbrev pub terminal_statuses : List Text
terminal_statuses =
    codes "CANCELLED"
    ∷ codes "CANCELED"
    ∷ codes "INACTIVE"
    ∷ codes "API CANCELLED"
    ∷ codes "APICANCELLED"
    ∷ []

module _ {F : Type 0} ⦃fl : Float F⦄ where
  open fl use {num, eq, is_finite}

  abbrev pub is_zero : Raw F → Bool
  is_zero raw = elim (parsed raw) [ none ↦ false | some x ↦ is_finite x && eq x (num 0 0) ]

  -- What one status decides, or nothing where it is read again.
  unfoldable pub verdict_of : Raw F → StatusRow F → Option Verdict
  verdict_of shares row =
      if ibkr_fill_is_complete row.filled row.remaining shares
      then some filled
      else if mem_text (upper row.status) terminal_statuses
      then some (if is_zero row.filled then cancelled else submitted)
      else none

  -- `reads k` is the k-th status, none where the call raises.
  unfoldable pub verify_from : ℕ → ℕ → (ℕ → Option (StatusRow F)) → Raw F → Verdict
  verify_from zero attempt reads shares = submitted
  verify_from (suc left) attempt reads shares = elim (reads attempt) [
    | none ↦ submitted
    | some row ↦ elim (verdict_of shares row) [
      | some v ↦ v
      | none ↦ verify_from left (attempt + 1) reads shares
    ]
  ]

  unfoldable pub verify_ibkr_fill : (ℕ → Option (StatusRow F)) → Raw F → Verdict
  unfolding verify_from
  verify_ibkr_fill reads shares = verify_from 6 0 reads shares

  -- What a verdict rests on.
  abbrev pub Rests : (ℕ → Option (StatusRow F)) → Raw F → Verdict → Type 0
  Rests reads shares filled =
      (k : ℕ) × (k < 6)
      × (row : StatusRow F) × (reads k ≡ some row)
      × IsComplete row.filled row.remaining shares
  Rests reads shares cancelled =
      (k : ℕ) × (k < 6)
      × (row : StatusRow F) × (reads k ≡ some row)
      × (mem_text (upper row.status) terminal_statuses ≡ true)
      × (is_zero row.filled ≡ true)
  Rests reads shares submitted = Unit

  verdict_of-Rests :
      (reads : ℕ → Option (StatusRow F)) (shares : Raw F) (k : ℕ) (row : StatusRow F) (v : Verdict)
      → k < 6
      → reads k ≡ some row
      → verdict_of shares row ≡ some v
      → Rests reads shares v
  unfolding verdict_of
  verdict_of-Rests reads shares k row filled l r h = (
    k,
    l,
    row,
    r,
    ibkr_fill_is_complete-IsComplete row.filled row.remaining shares (ground arith),
  )
  verdict_of-Rests reads shares k row cancelled l r h = (k, l, row, r, ground arith, ground arith)
  verdict_of-Rests reads shares k row submitted l r h = tt

  verify_from-Rests :
      (left attempt : ℕ) (reads : ℕ → Option (StatusRow F)) (shares : Raw F)
      → left + attempt ≡ 6
      → Rests reads shares (verify_from left attempt reads shares)
  unfolding verify_from
  verify_from-Rests zero attempt reads shares e = tt
  verify_from-Rests (suc left) attempt reads shares e = elim (Option-cases (reads attempt)) [
    | inl failed ↦ rw (failed, verify_from) tt
    | inr (row, r) ↦ elim (Option-cases (verdict_of shares row)) [
      | inl again ↦
          rw (r, again, verify_from)
            (verify_from-Rests left (attempt + 1) reads shares (omega arith))
      | inr (v, d) ↦
          rw (r, d, verify_from) (verdict_of-Rests reads shares attempt row v (omega arith) r d)
    ]
  ]

  -- A fill is reported only on one of the six statuses that shows it complete, a cancellation only
  -- on one with a terminal status and a filled quantity of exactly zero.
  pub verify_ibkr_fill-Rests :
      (reads : ℕ → Option (StatusRow F)) (shares : Raw F)
      → Rests reads shares (verify_ibkr_fill reads shares)
  unfolding verify_ibkr_fill
  verify_ibkr_fill-Rests reads shares = verify_from-Rests 6 0 reads shares (omega arith)
