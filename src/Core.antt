-- ===== src/Core.antt =====
-- core/: the objects that the components exchange, and the helpers on them.
pub mod Types
pub mod Objects
pub mod Tokens
pub mod Records
pub mod Names
pub mod Serial
mod Tests
