-- ===== src/Tools.antt =====
-- engine/tools: SSH key pairs and passphrases.
pub mod SshGen
mod Tests
