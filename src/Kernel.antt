-- ===== src/Kernel.antt =====
-- engine/kernel: the event bus with its identifiers and handlers, and the registry of modules.
pub mod Event
pub mod Bus
pub mod Handler
pub mod Registry
pub mod Uuid
mod Tests
