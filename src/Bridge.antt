-- ===== src/Bridge.antt =====
-- engine/bridge: the interface to the Rust enclave, its encoding of offsets, and the fallback in Go.
pub mod Offsets
pub mod GoFallback
pub mod Default
mod Tests
