-- ===== src/Ra.antt =====
-- ra/: the registration authority.
pub mod Config
pub mod Validation
pub mod Outcome
pub mod Answers
pub mod Limits
pub mod LimitLaws
pub mod Issue
pub mod Authorized
pub mod Registrations
pub mod RegLaws
pub mod Accounts
pub mod AccountLaws
pub mod Revocation
pub mod NewAuthz
pub mod NewAuthzLaws
mod Tests
mod IssueTests
mod AuthzTests
mod RegTests
