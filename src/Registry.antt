-- ===== src/Registry.antt =====
-- internal/registry: which tools an agent can see, under which names.
pub mod Types
pub mod Aliases
pub mod Tools
