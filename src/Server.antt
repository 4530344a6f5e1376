-- ===== src/Server.antt =====
-- internal/server: the proxy that agents talk to.
pub mod NameLocks
pub mod Startup
