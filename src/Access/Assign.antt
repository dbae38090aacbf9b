-- ===== src/Access/Assign.antt =====
-- Which account may be assigned: `validated_owner`, `bridge_identity`, `assert_ibkr_assignment`,
-- `assert_bybit_key_assignment` and `assert_bybit_uid` of app/services/account_access.py, and
-- app/services/access_scope.py.
pub mod Apart
use atlas_markets.Base.{
  ℕ, ◌≡◌, Bool, true, false, not, ◌&&◌, ◌||◌, ◌==◌, Option, none, some, List, [], ◌∷◌, All, any,
  arith, Bool-cases, inl, inr, ◌⊎◌, if◌then◌else◌,
}
use atlas_markets.Base.Text.{Text, codes, text_eq, mem_text, lower, strip}
use atlas_markets.Base.Answer.{
  Answer, done, refused, ◌>>=◌, require, or_refuse, bind-done, require-done,
}
use atlas_markets.Access.Owner.{Tables, active_owner}

pub record Principal : Type 0 where
  pub id : ℕ
  pub admin : Bool

pub data AccessError : Type 0 where
  owner_denied owner_inactive bridge_url_invalid setup_pending : AccessError
  bridge_assigned account_assigned key_assigned uid_assigned : AccessError

abbrev pub or_self : ℕ → Option ℕ → ℕ
or_self id none = id
or_self id (some requested) = requested

unfoldable pub validated_owner : Tables → Principal → Option ℕ → Answer AccessError ℕ
unfolding active_owner
validated_owner db user requested = do
  let owner = or_self user.id requested
  own ← require (not (not (owner == user.id) && not user.admin)) owner_denied
  active ← require (active_owner db owner) owner_inactive
  done owner

abbrev pub other_than : ℕ → Option ℕ → Bool
other_than id none = false
other_than id (some requested) = not (requested == id)

-- none is all owners.
unfoldable pub effective_owner_id : Principal → Option ℕ → Answer AccessError (Option ℕ)
effective_owner_id user requested =
    if user.admin
    then done requested
    else if other_than user.id requested
    then refused owner_denied
    else done (some user.id)

-- What `urlsplit` makes of a text: `extras` says that there is a user name, a password, a query or a
-- fragment; the port is none where reading it raises, and the inner none where there is none.
pub record Parts : Type 0 where
  pub scheme : Text
  pub hostname : Text
  pub extras : Bool
  pub port : Option (Option ℕ)
  pub path : Text

pub record Endpoint : Type 0 where
  pub host : Text
  pub port : ℕ
  pub path : Text

abbrev pub same_endpoint : Endpoint → Endpoint → Bool
same_endpoint a b = text_eq a.host b.host && (a.port == b.port) && text_eq a.path b.path

abbrev pub is_blank : Text → Bool
is_blank [] = true
is_blank (c ∷ s) = false

-- `parsed.port or default`
abbrev pub port_or : ℕ → Option ℕ → ℕ
port_or default none = default
port_or default (some port) = if port == 0 then default else port

-- A row of `broker_profiles` with what its credentials hold; a missing text is empty.
pub record IbkrRow : Type 0 where
  pub id : ℕ
  pub owner : ℕ
  pub environment : Text
  pub saved_account : Text
  pub account_ref : Text
  pub saved_url : Text

abbrev pub is_excluded : Option ℕ → ℕ → Bool
is_excluded none id = false
is_excluded (some excluded) id = id == excluded

-- `str(saved.get('account_id') or row.external_account_ref or '').strip()`
abbrev pub account_of : IbkrRow → Text
account_of row = strip (if is_blank row.saved_account then row.account_ref else row.saved_account)

-- A row of `broker_profiles`, with its decrypted key and the verified identity of its credentials.
pub record BybitRow : Type 0 where
  pub id : ℕ
  pub environment : Text
  pub key : Option Text
  pub verified_uid : Option Text

abbrev pub holds_text : (Text → Text) → Text → Option Text → Bool
holds_text clean text none = false
holds_text clean text (some saved) = text_eq (clean saved) text

abbrev pub is_other_of : Text → Option ℕ → BybitRow → Bool
is_other_of environment exclude row =
    text_eq row.environment environment && not (is_excluded exclude row.id)

unfoldable pub assert_bybit_key_assignment :
    List BybitRow → Text → Text → Option ℕ → Answer AccessError (Unit {0})
assert_bybit_key_assignment rows environment key exclude =
    require
      (not (
        any (λ row. is_other_of environment exclude row && holds_text strip (strip key) row.key)
          rows))
      key_assigned

unfoldable pub assert_bybit_uid :
    List BybitRow → Text → Text → Option ℕ → Answer AccessError (Unit {0})
assert_bybit_uid rows uid environment exclude =
    require
      (not (
        any (λ row. is_other_of environment exclude row && holds_text (λ t. t) uid row.verified_uid)
          rows))
      uid_assigned

-- `urlsplit` and `rstrip` are Python's; none is a text that `urlsplit` refuses.
module _ (urlsplit : Text → Option Parts) (rstrip_slash : Text → Text) where
  unfoldable pub bridge_identity : Text → Answer AccessError Endpoint
  bridge_identity url = do
    parts ← or_refuse (urlsplit (strip url)) bridge_url_invalid
    plain ←
        require
          (mem_text parts.scheme (codes "http" ∷ codes "https" ∷ [])
            && not (is_blank parts.hostname)
            && not parts.extras)
          bridge_url_invalid
    port ← or_refuse parts.port bridge_url_invalid
    done (record {
      host = lower parts.hostname;
      port = port_or (if text_eq parts.scheme (codes "https") then 443 else 80) port;
      path = rstrip_slash parts.path;
    })

  abbrev pub endpoint_of : IbkrRow → Answer AccessError Endpoint
  endpoint_of row =
      bridge_identity
        (if is_blank row.saved_url then codes "http://host.docker.internal:8766" else row.saved_url)

  unfoldable pub check_ibkr_row :
      ℕ → Text → Text → Endpoint → IbkrRow → Answer AccessError (Unit {0})
  unfolding bridge_identity
  check_ibkr_row owner environment account endpoint row = do
    other ← endpoint_of row
    free_bridge ←
        require
          (not (
            same_endpoint endpoint other
            && (not (row.owner == owner)
                || not (text_eq (account_of row) account)
                || not (text_eq row.environment environment))))
          bridge_assigned
    require (not (text_eq (account_of row) account && text_eq row.environment environment))
        account_assigned

  unfoldable pub check_ibkr_rows :
      ℕ → Text → Text → Endpoint → Option ℕ → List IbkrRow → Answer AccessError (Unit {0})
  unfolding check_ibkr_row
  check_ibkr_rows owner environment account endpoint exclude [] = done tt
  check_ibkr_rows owner environment account endpoint exclude (row ∷ rows) =
      let rest = check_ibkr_rows owner environment account endpoint exclude rows in
      if is_excluded exclude row.id
      then rest
      else check_ibkr_row owner environment account endpoint row >>= (λ free. rest)

  -- `pending` holds the accounts of the open setup requests other than this one.
  unfoldable pub assert_ibkr_assignment :
      List IbkrRow → List Text → ℕ → Text → Text → Text → Option ℕ → Answer AccessError (Unit {0})
  unfolding bridge_identity check_ibkr_rows
  assert_ibkr_assignment rows pending owner environment account_id bridge_url exclude = do
    quiet ← require (not (mem_text (strip account_id) pending)) setup_pending
    endpoint ← bridge_identity bridge_url
    check_ibkr_rows owner environment (strip account_id) endpoint exclude rows
