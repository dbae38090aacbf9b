-- ===== src/Bybit/Reconcile.antt =====
-- `reconcile_cancelled_submissions` of app/services/bybit_spot_execution.py on the rows of
-- `automation_actions`, which are kept in the order of their creation.
use atlas_markets.Base.{
  ℕ, zero, suc, ◌≡◌, refl, Bool, true, not, ◌&&◌, ◌||◌, Option, none, some, List, [], ◌∷◌, ◌⊎◌, inl,
  inr, length, keep, arith, ◌==◌, if◌then◌else◌, Bool-cases, Option-cases,
}
use atlas_markets.Base.Text.{Text, text_eq, mem_text, upper}
use atlas_markets.Base.Float.{Float}
use atlas_markets.Guard.Symbols.{canonical_symbol, is_empty}
use atlas_markets.Rows.{
  Status, cancelled, is_submitted, Action, Profile, bybit, simulation_environments,
}
use atlas_markets.Bybit.Fills.{HistoryRow, zero_fill_cancellation}

-- The query for unresolved submissions of one profile and symbol.
unfoldable pub is_unresolved : Profile → ℕ → Text → Action → Bool
is_unresolved profile user symbol a =
    (a.user == user)
    && (a.profile == profile.id)
    && text_eq a.provider bybit
    && text_eq a.environment (upper profile.environment)
    && text_eq a.symbol symbol
    && is_submitted a.status

-- `_bybit_client` builds a client and does not raise.
unfoldable pub has_client : Profile → Bool
has_client profile =
    mem_text (upper profile.environment) simulation_environments && profile.key && profile.secret

-- What the exchange and the other workers do during the reads: the order history of an action,
-- `none` if the call raises, and the row as `db.refresh` then finds it.
pub record Reads (F D : Type 0) : Type 0 where
  pub history : Action → Option (List (HistoryRow F D))
  pub refreshed : Action → Status
  pub still_readable : Action → Bool

module _ {F D : Type 0} ⦃dl : Float D⦄ (reads : Reads F D) where
  unfoldable pub matches : Action → List (HistoryRow F D) → List (HistoryRow F D)
  matches a = keep (λ row. zero_fill_cancellation row a.symbol a.side a.order_id a.link)

  -- The body after a single match: the row is read again, and resolved if nobody else has.
  unfoldable pub settled : Action → Action
  settled a =
      if is_submitted (reads.refreshed a)
      then (if reads.still_readable a then record a { status = cancelled } else a)
      else record a { status = reads.refreshed a }

  unfoldable pub resolved : Action → Action
  unfolding settled matches
  resolved a = if not a.audit_readable || is_empty a.order_id then a else elim (reads.history a) [
    | none ↦ a
    | some history ↦ if length (matches a history) == 1 then settled a else a
  ]

  unfoldable pub resolve_from : (Action → Bool) → ℕ → List Action → List Action
  resolve_from unresolved zero acts = acts
  resolve_from unresolved (suc left) [] = []
  resolve_from unresolved (suc left) (a ∷ acts) =
      if unresolved a
      then resolved a ∷ resolve_from unresolved left acts
      else a ∷ resolve_from unresolved (suc left) acts

  -- `none` is the RuntimeError of a profile for which no client can be built.
  unfoldable pub reconcile_cancelled_submissions :
      Profile → ℕ → Text → List Action → Option (List Action)
  unfolding resolve_from
  reconcile_cancelled_submissions profile user symbol actions =
      if not (text_eq profile.provider bybit)
        || not (mem_text (upper profile.environment) simulation_environments)
        || not (profile.user == user)
        || not profile.credentials_configured
      then some actions
      else if length (keep (is_unresolved profile user (canonical_symbol symbol)) actions) == 0
      then some actions
      else if has_client profile
      then some (resolve_from (is_unresolved profile user (canonical_symbol symbol)) 50 actions)
      else none

  -- The exchange shows exactly one order with the action's identifiers that was cancelled with
  -- nothing filled.
  abbrev pub IsProven : Action → Type 0
  IsProven a =
      (history : List (HistoryRow F D)) × (reads.history a ≡ some history)
      × (length (matches a history) ≡ 1)

  -- What may happen to one row.
  abbrev pub Outcome : (Action → Bool) → Action → Action → Type 0
  Outcome unresolved a b =
      (b ≡ a)
      ⊎ ((unresolved a ≡ true)
          × IsProven a
          × ((b ≡ record a { status = cancelled }) ⊎ (b ≡ record a { status = reads.refreshed a })))

  abbrev pub Outcomes : (Action → Bool) → List Action → List Action → Type 0
  Outcomes unresolved [] [] = Unit
  Outcomes unresolved (a ∷ acts) (b ∷ bs) = Outcome unresolved a b × Outcomes unresolved acts bs
  Outcomes unresolved [] (b ∷ bs) = ⊥
  Outcomes unresolved (a ∷ acts) [] = ⊥

  settled-Outcome :
      (unresolved : Action → Bool) (a : Action)
      → unresolved a ≡ true
      → IsProven a
      → Outcome unresolved a (settled a)
  unfolding settled
  settled-Outcome unresolved a u p = elim (Bool-cases (is_submitted (reads.refreshed a))) [
    | inl still ↦ elim (Bool-cases (reads.still_readable a)) [
      | inl r ↦ inr (u, p, inl (rw (still, r)))
      | inr r ↦ inl (rw (still, r))
    ]
    | inr moved ↦ inr (u, p, inr (rw moved))
  ]

  resolved-Outcome :
      (unresolved : Action → Bool) (a : Action)
      → unresolved a ≡ true
      → Outcome unresolved a (resolved a)
  unfolding resolved
  resolved-Outcome unresolved a u =
      elim (Bool-cases (not a.audit_readable || is_empty a.order_id)) [
        | inl unreadable ↦ inl (rw unreadable)
        | inr readable ↦ elim (Option-cases (reads.history a)) [
          | inl failed ↦ inl (ground arith)
          | inr (history, r) ↦ elim (Bool-cases (length (matches a history) == 1)) [
            | inl one ↦
                let same : resolved a ≡ settled a = ground arith in
                rw same (settled-Outcome unresolved a u (history, r, ground arith))
            | inr other ↦ inl (ground arith)
          ]
        ]
      ]

  Outcomes-refl : (unresolved : Action → Bool) (acts : List Action) → Outcomes unresolved acts acts
  Outcomes-refl unresolved [] = tt
  Outcomes-refl unresolved (a ∷ acts) = (inl refl, Outcomes-refl unresolved acts)

  resolve_from-Outcomes :
      (unresolved : Action → Bool) (left : ℕ) (acts : List Action)
      → Outcomes unresolved acts (resolve_from unresolved left acts)
  unfolding resolve_from
  resolve_from-Outcomes unresolved zero acts = Outcomes-refl unresolved acts
  resolve_from-Outcomes unresolved (suc left) [] = tt
  resolve_from-Outcomes unresolved (suc left) (a ∷ acts) = elim (Bool-cases (unresolved a)) [
    | inl u ↦ rw u (resolved-Outcome unresolved a u, resolve_from-Outcomes unresolved left acts)
    | inr k ↦ rw k (inl refl, resolve_from-Outcomes unresolved (suc left) acts)
  ]

  -- A reconciliation that returns leaves every action as it was, except unresolved submissions of
  -- this user, profile and symbol for which the exchange shows exactly one matching cancellation
  -- with nothing filled: such a one is marked cancelled, or takes the status that another worker
  -- gave it meanwhile.
  pub reconcile_cancelled_submissions-Outcomes :
      (profile : Profile) (user : ℕ) (symbol : Text) (acts : List Action) {bs : List Action}
      → reconcile_cancelled_submissions profile user symbol acts ≡ some bs
      → Outcomes (is_unresolved profile user (canonical_symbol symbol)) acts bs
  unfolding reconcile_cancelled_submissions
  reconcile_cancelled_submissions-Outcomes profile user symbol acts {bs} h =
      elim (Bool-cases (
        not (text_eq profile.provider bybit)
        || not (mem_text (upper profile.environment) simulation_environments)
        || not (profile.user == user)
        || not profile.credentials_configured)) [
          | inl other ↦
              let e : bs ≡ acts = ground arith in
              rw e (Outcomes-refl (is_unresolved profile user (canonical_symbol symbol)) acts)
          | inr mine ↦
              elim (Bool-cases
                (length (keep (is_unresolved profile user (canonical_symbol symbol)) acts) == 0)) [
                  | inl nothing ↦
                      let e : bs ≡ acts = ground arith in
                      rw e
                        (Outcomes-refl (is_unresolved profile user (canonical_symbol symbol)) acts)
                  | inr some_left ↦
                      let e : bs
                          ≡ resolve_from (is_unresolved profile user (canonical_symbol symbol)) 50
                              acts =
                        ground arith in
                      rw e (
                        resolve_from-Outcomes (is_unresolved profile user (canonical_symbol symbol))
                          50 acts)
                ]
        ]
