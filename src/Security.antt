-- ===== src/Security.antt =====
-- engine/security: what guards the vault against guessing, and what records it.
mod Tests
mod SessionTests
mod MonitorTests
mod KeyTests
pub mod SecretGuard
pub mod Zkp
pub mod ConstantTime
pub mod MvkStore
pub mod Session
pub mod IntrusionDetector
pub mod Audit
pub mod Lockdown
pub mod RateLimiter
