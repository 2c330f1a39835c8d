-- ===== src/CommandLine.antt =====
-- The administrator's command line: app/cli.py.
pub mod Defs
mod FirstLogin
mod Tests
