-- ===== src/Wfe.antt =====
-- wfe/: the web front end.
pub mod Problems
pub mod Statuses
