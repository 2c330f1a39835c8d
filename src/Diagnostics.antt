-- ===== src/Diagnostics.antt =====
-- The three diagnostic routes, what they record and who reads it: app/api/http_check.py,
-- port_check.py, dns_lookup.py and history.py, and app/services/persistence.py.
pub mod Rows
pub mod Persistence
pub mod History
pub mod Routes
pub mod Recorded
pub mod Access
pub mod Readback
pub mod Redaction
pub mod Answers
mod Tests
