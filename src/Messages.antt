-- ===== src/Messages.antt =====
-- static/auth/unlock.js behind the vault: armored blocks, MIME, signatures, and reading and writing
-- encrypted messages with the keys that the vault holds.
pub mod Armor
pub mod Signatures
pub mod Mime
pub mod Api
pub mod Nested
pub mod Decrypt
pub mod Keys
mod Tests
