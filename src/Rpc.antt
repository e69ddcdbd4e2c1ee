-- ===== src/Rpc.antt =====
-- grpc/: errors across the RPC layer.
pub mod Bcodes
pub mod Across
mod Tests
