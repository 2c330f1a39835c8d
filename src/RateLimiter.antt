-- ===== src/RateLimiter.antt =====
-- app/core/security.py, `RateLimiter`: a sliding window of one minute for each client key, in
-- memory, and the specification that it implements.
-- A reading of `time.monotonic()` is a number of nanoseconds.
pub mod Defs
pub mod Window
pub mod Refinement
pub mod Bounds
mod Tests
