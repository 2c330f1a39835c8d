-- ===== src/Security.antt =====
-- app/core/security.py, but for its rate limiter: which targets may be diagnosed.
pub mod Address
pub mod Domain
pub mod Port
pub mod Chars
pub mod Url
pub mod Allowlist
mod Tests
