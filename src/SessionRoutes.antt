-- ===== src/SessionRoutes.antt =====
-- The routes of a login: app/api/auth.py.
pub mod Defs
mod LoggedIn
mod Kept
mod LoggedOut
mod Tests
