-- ===== src/Jq.antt =====
-- internal/jq: projection paths as jq filters.
pub mod Path
pub mod Filter
