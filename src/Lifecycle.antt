-- ===== src/Lifecycle.antt =====
-- Everything that happens to accounts and sessions, as sequences of operations: the functions of
-- app/services/auth_service.py and the routes of app/api/admin_users.py.
pub mod Defs
pub mod DeadTokens
pub mod Logout
