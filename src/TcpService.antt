-- ===== src/TcpService.antt =====
-- The TCP port check: app/services/tcp_service.py.
pub mod Defs
pub mod Report
mod Tests
