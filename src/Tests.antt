-- ===== src/Tests.antt =====
-- Runs of the model at concrete inputs, and each theorem at an input that meets its conditions.
mod Registry
mod Jq
mod Encode
mod Toon
mod Projection
mod Response
mod Transport
mod Server
mod FromJson
mod Env
mod Ssrf
mod NameLocks
