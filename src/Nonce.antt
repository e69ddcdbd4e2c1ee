-- ===== src/Nonce.antt =====
-- nonce/nonce.go: the service that issues anti-replay nonces and accepts each of them once.
-- A counter is an int64, kept as an integer with the wrap-around of `latest++` written out. AES-GCM
-- and base64 are parameters. The mutex makes every operation one atomic step, so a history is a list
-- of operations; metrics are left out.
pub mod Bytes
pub mod Defs
pub mod Used
pub mod Invariant
pub mod Replay
pub mod History
mod Tests
