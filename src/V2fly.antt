-- ===== src/V2fly.antt =====
-- The package internal/managers/v2fly: the v2ray configuration and the gRPC client.
pub mod Structs
pub mod Config
pub mod Grpc
pub mod Links
