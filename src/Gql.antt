-- ===== src/Gql.antt =====
-- engine/gql: the binary frame protocol of GrimQueryLanguage.
mod Tests
pub mod Message
pub mod Opcodes
pub mod ErrorNames
pub mod Frame
pub mod Query
pub mod Utf8
pub mod Validator
