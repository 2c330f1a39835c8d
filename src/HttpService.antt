-- ===== src/HttpService.antt =====
-- app/services/http_service.py: the HTTP check, which follows redirects itself and looks at the
-- target of every hop before it sends a request to it.
pub mod Defs
pub mod Errors
pub mod Termination
pub mod Safety
pub mod AtLimit
pub mod Report
mod Tests
