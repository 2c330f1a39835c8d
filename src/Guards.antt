-- ===== src/Guards.antt =====
-- Who may call a route: app/core/auth_deps.py, and app/core/deps.py.
pub mod Defs
pub mod Authorized
pub mod ClientIp
pub mod Usable
mod Tests
