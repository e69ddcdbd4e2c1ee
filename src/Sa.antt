-- ===== src/Sa.antt =====
-- sa/: the storage authority.
pub mod Model
pub mod Db
pub mod Transactions
pub mod Authz
pub mod Outcomes
pub mod Rows
pub mod Invariant
pub mod Queries
pub mod Best
pub mod ValidAuthz
pub mod Phase
pub mod Refinement
pub mod GetAuthz
pub mod Revoke
pub mod Revoked
pub mod Revoking
pub mod Operations
pub mod IpRange
pub mod IpBounds
pub mod ReverseName
pub mod IssuedNames
pub mod NameCounts
pub mod CertDb
pub mod Certificates
pub mod CertLaws
pub mod CertAdded
pub mod CertLife
pub mod Registrations
pub mod RegLaws
pub mod Deactivated
pub mod ToyCodec
pub mod ToyCollation
mod Tests
mod LifeTests
pub mod CertTests
