-- ===== src/Application.antt =====
-- What surrounds the routes: app/main.py with app/services/audit.py.
pub mod Audit
pub mod Middleware
pub mod Balance
pub mod Told
pub mod Unreadable
mod Tests
mod UnreadableTests
