-- ===== src/Response.antt =====
-- internal/response: the envelope that an agent gets, and the store of full responses.
pub mod Store
pub mod Files
pub mod Envelope
