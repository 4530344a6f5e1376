-- ===== src/Config.antt =====
-- internal/config: names and permissions, projection settings and exclude paths.
pub mod Env
pub mod Names
pub mod Projection
pub mod Exclude
