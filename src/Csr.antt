-- ===== src/Csr.antt =====
-- csr/csr.go: the check of a certificate request.
pub mod Defs
pub mod Laws
mod Tests
