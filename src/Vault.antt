-- ===== src/Vault.antt =====
-- static/auth/unlock.js: the key vault of the browser. OpenPGP.js, WebCrypto and the key derivation
-- of static/auth/keygen.js are a parameter; time is an argument, in milliseconds.
pub mod Storage
pub mod Fingerprint
pub mod State
pub mod Unlock
mod Tests
