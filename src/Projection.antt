-- ===== src/Projection.antt =====
-- internal/projection: what of an upstream response an agent sees.
pub mod Value
pub mod Merge
pub mod Text
pub mod Excluded
pub mod Engine
