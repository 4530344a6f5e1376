-- ===== src/Transport.antt =====
-- internal/transport: messages from an upstream server.
pub mod Sse
pub mod Ssrf
