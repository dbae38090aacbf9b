-- ===== src/Access/Assign/Apart.antt =====
-- What an assignment of an Interactive Brokers account leaves apart.
use atlas_markets.Base.{
  ℕ, ◌≡◌, true, false, not, ◌&&◌, ◌||◌, ◌==◌, Option, List, [], ◌∷◌, All, arith, Bool-cases, inl,
  inr, ◌⊎◌,
}
use atlas_markets.Base.Text.{Text, text_eq, mem_text, strip}
use atlas_markets.Base.Answer.{done, require, bind-done, require-done}
use atlas_markets.Access.Assign.{
  same_endpoint, is_excluded, account_of, bridge_identity, endpoint_of, check_ibkr_row,
  check_ibkr_rows, assert_ibkr_assignment, Endpoint, Parts, IbkrRow, setup_pending, bridge_assigned,
  account_assigned,
}

module _ (urlsplit : Text → Option Parts) (rstrip_slash : Text → Text) where
  -- Another row: its bridge is a different one, and its account or its environment differs.
  abbrev pub IsApart : Text → Text → Endpoint → Option ℕ → IbkrRow → Type 0
  IsApart environment account endpoint exclude row =
      (is_excluded exclude row.id ≡ true)
      ⊎ ((other : Endpoint) × (endpoint_of urlsplit rstrip_slash row ≡ done other)
          × (same_endpoint endpoint other ≡ false)
          × (text_eq (account_of row) account && text_eq row.environment environment ≡ false))

  check_ibkr_row-IsApart :
      (owner : ℕ) (environment account : Text) (endpoint : Endpoint) (row : IbkrRow) {u : Unit {0}}
      → check_ibkr_row urlsplit rstrip_slash owner environment account endpoint row ≡ done u
      → (other : Endpoint) × (endpoint_of urlsplit rstrip_slash row ≡ done other)
        × (same_endpoint endpoint other ≡ false)
        × (text_eq (account_of row) account && text_eq row.environment environment ≡ false)
  unfolding check_ibkr_row
  check_ibkr_row-IsApart owner environment account endpoint row h =
      let (other, e1, h1) = bind-done (endpoint_of urlsplit rstrip_slash row) _ h in
      let mine =
        not (row.owner == owner)
        || not (text_eq (account_of row) account)
        || not (text_eq row.environment environment) in
      let (u2, e2, h2) =
        bind-done (require (not (same_endpoint endpoint other && mine)) bridge_assigned) _ h1 in
      let bridge = require-done (not (same_endpoint endpoint other && mine)) bridge_assigned e2 in
      let unused =
        require-done (not (text_eq (account_of row) account && text_eq row.environment environment))
          account_assigned h2 in
      (other, e1, ground arith, ground arith)

  check_ibkr_rows-IsApart :
      (owner : ℕ) (environment account : Text) (endpoint : Endpoint) (exclude : Option ℕ)
      (rows : List IbkrRow) {u : Unit {0}}
      → check_ibkr_rows urlsplit rstrip_slash owner environment account endpoint exclude rows
        ≡ done u
      → All (IsApart environment account endpoint exclude) rows
  unfolding check_ibkr_rows
  check_ibkr_rows-IsApart owner environment account endpoint exclude [] h = tt
  check_ibkr_rows-IsApart owner environment account endpoint exclude (row ∷ rows) h =
      elim (Bool-cases (is_excluded exclude row.id)) [
        | inl itself ↦ (
          inl itself,
          check_ibkr_rows-IsApart owner environment account endpoint exclude rows
              (rw (itself) at h),
        )
        | inr another ↦
            let (u1, e1, h1) =
              bind-done
                (check_ibkr_row urlsplit rstrip_slash owner environment account endpoint row) _
                (rw (another) at h) in
            (
              inr (check_ibkr_row-IsApart owner environment account endpoint row e1),
              check_ibkr_rows-IsApart owner environment account endpoint exclude rows h1,
            )
      ]

  -- An assignment that is not refused has a valid bridge address and no open setup request for the
  -- account; every other row uses a bridge of its own, and has another account or environment.
  pub assert_ibkr_assignment-IsApart :
      (rows : List IbkrRow) (pending : List Text) (owner : ℕ)
      (environment account_id bridge_url : Text) (exclude : Option ℕ) {u : Unit {0}}
      → assert_ibkr_assignment urlsplit rstrip_slash rows pending owner environment account_id
          bridge_url exclude
        ≡ done u
      → (endpoint : Endpoint) × (bridge_identity urlsplit rstrip_slash bridge_url ≡ done endpoint)
        × (mem_text (strip account_id) pending ≡ false)
        × All (IsApart environment (strip account_id) endpoint exclude) rows
  unfolding assert_ibkr_assignment
  assert_ibkr_assignment-IsApart rows pending owner environment account_id bridge_url exclude h =
      let (u1, e1, h1) =
        bind-done (require (not (mem_text (strip account_id) pending)) setup_pending) _ h in
      let (endpoint, e2, h2) = bind-done (bridge_identity urlsplit rstrip_slash bridge_url) _ h1 in
      let quiet = require-done (not (mem_text (strip account_id) pending)) setup_pending e1 in
      (
        endpoint,
        e2,
        ground arith,
        check_ibkr_rows-IsApart owner environment (strip account_id) endpoint exclude rows h2,
      )
