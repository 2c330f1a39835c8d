-- ===== src/AdminUsers.antt =====
-- What administrators do to accounts: app/api/admin_users.py.
pub mod Defs
pub mod Listing
mod Filters
mod ListingTests
pub mod LastAdmin
pub mod Sessions
mod Tests
