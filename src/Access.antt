-- ===== src/Access.antt =====
-- Who may act on an account: app/services/account_access.py and app/services/access_scope.py.
pub mod Owner
pub mod Assign
