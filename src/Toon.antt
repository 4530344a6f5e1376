-- ===== src/Toon.antt =====
-- internal/toon: the encoder for TOON, spec v4.1.
pub mod Value
pub mod Quote
pub mod Numbers
pub mod Columns
pub mod Encode
pub mod FromJson
