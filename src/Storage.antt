-- ===== src/Storage.antt =====
-- engine/storage: blocks, and transactions over a block store.
pub mod Transaction
pub mod Block
mod Tests
