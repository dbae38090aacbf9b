-- ===== src/Access/Owner.antt =====
-- `active_owner` and `entry_owner_blocker` of app/services/account_access.py.
use atlas_markets.Base.{ℕ, Bool, false, not, ◌&&◌, Option, none, some, if◌then◌else◌}
use atlas_markets.Rows.{Profile}

pub data EntryBlocker : Type 0 where
  account_owner_disabled route_not_ready : EntryBlocker

-- The tables as a submission finds them: `users id` says whether the row is active, `none` where
-- there is no such row.
pub record Tables : Type 0 where
  pub users : ℕ → Option Bool
  pub profiles : ℕ → Option Profile

unfoldable pub active_owner : Tables → ℕ → Bool
active_owner db owner = elim (db.users owner) [ none ↦ false | some active ↦ active ]

unfoldable pub entry_owner_blocker : Tables → Profile → Option EntryBlocker
unfolding active_owner
entry_owner_blocker db profile =
    if not (active_owner db profile.user)
    then some account_owner_disabled
    else elim (db.profiles profile.id) [
      | none ↦ some route_not_ready
      | some current ↦
          if not (current.is_enabled && current.is_active) then some route_not_ready else none
    ]
