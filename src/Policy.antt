-- ===== src/Policy.antt =====
-- policy/: which names the CA issues for, and which challenges it offers.
pub mod Defs
pub mod Names
pub mod Lists
pub mod Challenges
mod Tests
