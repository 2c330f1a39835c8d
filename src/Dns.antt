-- ===== src/Dns.antt =====
-- The DNS lookup: app/services/dns_service.py.
pub mod Defs
pub mod Report
mod Tests
