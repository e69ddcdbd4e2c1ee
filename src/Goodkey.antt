-- ===== src/Goodkey.antt =====
-- goodkey/good_key.go: which public keys may be used.
pub mod Defs
pub mod Rsa
pub mod Ecdsa
pub mod Tests
