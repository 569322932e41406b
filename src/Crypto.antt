-- ===== src/Crypto.antt =====
-- engine/crypto: ciphers and keys, files of entropy, and the overwriting of files.
pub mod Shredder
pub mod Coordinate
pub mod Provider
pub mod Entropy
pub mod PqcReady
mod Tests
mod ProviderTests
