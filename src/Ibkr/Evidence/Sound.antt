-- ===== src/Ibkr/Evidence/Sound.antt =====
-- What an entry fill that `execution_fill` proves rests on.
use atlas_markets.Base.{
  ℕ, ◌≡◌, refl, true, none, some, List, [], ◌∷◌, ◌++◌, ◌⊎◌, inl, inr, All, Among, All-append, arith,
  Option-cases, Bool-cases, ◌∙◌, sym, ap,
}
use mathlib.Core.List.{append-nil, append_assoc}
use atlas_markets.Base.Text.{Text, text_eq, text_eq_refl, text_eq→eq}
use atlas_markets.Base.Float.{Float}
use atlas_markets.Ibkr.Shares.{parsed, numbers_match}
use atlas_markets.Ibkr.Evidence.{
  Execution, Entry, Deal, Proof, lookup, is_own, deal_of, same_deal, record_deal, collect,
  total_quantity, execution_fill, IsUnique, IsCounted, IsSource,
}

module _ {F : Type 0} ⦃fl : Float F⦄ where
  abbrev Extends : List (Text × Deal F) → List (Text × Deal F) → Type 0
  Extends old new = (k : Text) (e : Deal F) → lookup k old ≡ some e → lookup k new ≡ some e

  lookup_cons :
      (id : Text) (d : Deal F) (unique : List (Text × Deal F))
      → lookup id unique ≡ none
      → Extends unique ((id, d) ∷ unique)
  lookup_cons id d unique fresh k e h = elim (Bool-cases (text_eq id k)) [
    | inl same ↦
        let swapped : lookup k unique ≡ none =
          ap (λ (t : Text). lookup t unique) (sym (text_eq→eq id k same)) ∙ fresh in
        ground arith
    | inr other ↦ ground arith
  ]

  -- What one more deal does to the deals so far.
  record IsRecorded (id : Text) (d : Deal F) (old new : List (Text × Deal F)) : Type 0 where
    unique : IsUnique old → IsUnique new
    extends : Extends old new
    counted : (e : Deal F) × (lookup id new ≡ some e) × ((e ≡ d) ⊎ (same_deal e d ≡ true))
    added : (new ≡ old) ⊎ (new ≡ (id, d) ∷ old)

  record_deal-IsRecorded :
      (id : Text) (d : Deal F) (old : List (Text × Deal F)) {new : List (Text × Deal F)}
      → record_deal id d old ≡ some new
      → IsRecorded id d old new
  unfolding record_deal
  record_deal-IsRecorded id d old {new} h = elim (Option-cases (lookup id old)) [
    | inl fresh ↦
        let e : new ≡ ((id, d) ∷ old) = ground arith in
        rw e (record {
          unique = λ u. (fresh, u);
          extends = lookup_cons id d old fresh;
          counted = (d, rw (text_eq_refl id), inl refl);
          added = inr refl;
        })
    | inr (found, f) ↦ elim (Bool-cases (same_deal found d)) [
      | inl same ↦
          let e : new ≡ old = ground arith in
          rw e (record {
            unique = λ u. u;
            extends = λ k x p. p;
            counted = (found, f, inr same);
            added = inl refl;
          })
      | inr conflict ↦ ground arith
    ]
  ]

  -- Every deal comes from one of the rows.
  abbrev pub AreSourced : Entry F → Text → ℕ → List (Execution F) → List (Text × Deal F) → Type 0
  AreSourced entry account now rows = All (λ (id, d). Among (IsSource entry account now id d) rows)

  -- A deal from a later row
  AreSourced-later :
      (entry : Entry F) (account : Text) (now : ℕ) (row : Execution F) (rows : List (Execution F))
      (deals : List (Text × Deal F))
      → AreSourced entry account now rows deals
      → AreSourced entry account now (row ∷ rows) deals
  AreSourced-later entry account now row rows [] h = tt
  AreSourced-later entry account now row rows ((id, d) ∷ deals) (p, h) =
      (inr p, AreSourced-later entry account now row rows deals h)

  own-parts :
      (entry : Entry F) (account : Text) (row : Execution F)
      → is_own entry account row ≡ true
      → (text_eq row.order_id entry.broker_order_id ≡ true) × (text_eq row.account account ≡ true)
  unfolding is_own
  own-parts entry account row h = ground arith

  -- What the loop over the rows establishes.
  record IsCollected (entry : Entry F) (account : Text) (now : ℕ) (old new : List (Text × Deal F))
      (rows : List (Execution F)) : Type 0 where
    unique : IsUnique old → IsUnique new
    extends : Extends old new
    counted : All (IsCounted entry account now new) rows
    sourced :
        (added : List (Text × Deal F)) × (new ≡ added ++ old)
        × AreSourced entry account now rows added

  sourced_one :
      (entry : Entry F) (account : Text) (now : ℕ) (old more new : List (Text × Deal F))
      (row : Execution F) (rows : List (Execution F)) (d : Deal F)
      → is_own entry account row ≡ true
      → deal_of entry now row ≡ some d
      → (more ≡ old) ⊎ (more ≡ (row.execution_id, d) ∷ old)
      → (added : List (Text × Deal F)) × (new ≡ added ++ more)
        × AreSourced entry account now rows added
      → (added : List (Text × Deal F)) × (new ≡ added ++ old)
        × AreSourced entry account now (row ∷ rows) added
  sourced_one entry account now old more new row rows d own c (inl same) (added, e, h) =
      (added, rw same at e, AreSourced-later entry account now row rows added h)
  sourced_one entry account now old more new row rows d own c (inr one) (added, e, h) =
      let (order, account_) = own-parts entry account row own in
      let first : (row.execution_id, d) ∷ old ≡ ((row.execution_id, d) ∷ []) ++ old = refl in
      (
        added ++ ((row.execution_id, d) ∷ []),
        (rw (one, first) at e) ∙ sym (append_assoc added ((row.execution_id, d) ∷ []) old),
        All-append (λ (id, d). Among (IsSource entry account now id d) (row ∷ rows)) added
            ((row.execution_id, d) ∷ []) (AreSourced-later entry account now row rows added h)
            (inl (order, account_, refl, c), tt),
      )

  IsCollected-one :
      (entry : Entry F) (account : Text) (now : ℕ) (old more new : List (Text × Deal F))
      (row : Execution F) (rows : List (Execution F)) (d : Deal F)
      → is_own entry account row ≡ true
      → deal_of entry now row ≡ some d
      → IsRecorded row.execution_id d old more
      → IsCollected entry account now more new rows
      → IsCollected entry account now old new (row ∷ rows)
  IsCollected-one entry account now old more new row rows d own c r s =
      let (e, found, value) = r.counted in
      record {
        unique = λ u. s.unique (r.unique u);
        extends = λ k x p. s.extends k x (r.extends k x p);
        counted = (inr (d, e, c, s.extends row.execution_id e found, value), s.counted);
        sourced = sourced_one entry account now old more new row rows d own c r.added s.sourced;
      }

  collect-IsCollected :
      (entry : Entry F) (account : Text) (now : ℕ) (rows : List (Execution F))
      (old : List (Text × Deal F)) {new : List (Text × Deal F)}
      → collect entry account now old rows ≡ some new
      → IsCollected entry account now old new rows
  unfolding collect
  collect-IsCollected entry account now [] old {new} h =
      let e : new ≡ old = ground arith in
      rw e
        (record { unique = λ u. u; extends = λ k x p. p; counted = tt; sourced = ([], refl, tt) })
  collect-IsCollected entry account now (row ∷ rows) old {new} h =
      elim (Bool-cases (is_own entry account row)) [
        | inr foreign ↦
            let s = collect-IsCollected entry account now rows old {new = new} (ground arith) in
            let (added, e, h) = s.sourced in
            record {
              unique = s.unique;
              extends = s.extends;
              counted = (inl foreign, s.counted);
              sourced = (added, e, AreSourced-later entry account now row rows added h);
            }
        | inl own ↦ elim (Option-cases (deal_of entry now row)) [
          | inl bad ↦ ground arith
          | inr (d, c) ↦ elim (Option-cases (record_deal row.execution_id d old)) [
            | inl conflict ↦ ground arith
            | inr (more, m) ↦
                IsCollected-one entry account now old more new row rows d own c
                  (record_deal-IsRecorded row.execution_id d old {new = more} m)
                  (collect-IsCollected entry account now rows more {new = new} (ground arith))
          ]
        ]
      ]

  -- A fill that is proved counts the executions of this order and account, and these alone. Every
  -- deal it counts is the checked value of a row with this order's id and this account; every row of
  -- them passed the checks, with its execution id standing for its own value, so that one bad or
  -- contradictory row leaves no proof; every execution id is counted once; and the quantity is the sum
  -- over the deals, and the expected quantity within the tolerance.
  pub execution_fill-counts :
      (entry : Entry F) (executions : List (Execution F)) (account : Text) (now : ℕ) {p : Proof F}
      → execution_fill entry executions account now ≡ some p
      → IsUnique p.deals
        × (p.quantity ≡ total_quantity p.deals)
        × ((expected : F) × (parsed entry.quantity ≡ some expected)
            × (numbers_match p.quantity expected ≡ true))
        × All (IsCounted entry account now p.deals) executions
        × AreSourced entry account now executions p.deals
  unfolding execution_fill
  execution_fill-counts entry executions account now {p} h =
      elim (Option-cases (parsed entry.quantity)) [
        | inl unreadable ↦ ground arith
        | inr (expected, q) ↦ elim (Option-cases (collect entry account now [] executions)) [
          | inl refused ↦ ground arith
          | inr (unique, c) ↦
              let s = collect-IsCollected entry account now executions [] {new = unique} c in
              let e : p.deals ≡ unique = ground arith in
              let (added, k, sourced) = s.sourced in
              let same : p.deals ≡ added = e ∙ k ∙ append-nil added in
              (
                rw e (s.unique tt),
                ground arith,
                (expected, q, ground arith),
                rw e s.counted,
                rw same sourced,
              )
        ]
      ]
