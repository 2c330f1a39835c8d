-- ===== src/Accounts.antt =====
-- Accounts and login sessions: app/core/auth.py, app/services/auth_service.py and the tables of
-- PostgreSQL that they use.
pub mod Credentials
pub mod Tables
pub mod Events
pub mod Rows
pub mod Login
pub mod Granted
pub mod Lockout
pub mod LockedOut
pub mod Limit
pub mod Tokens
pub mod Sessions
pub mod Change
pub mod Changed
pub mod Resolved
pub mod Sample
mod Tests
