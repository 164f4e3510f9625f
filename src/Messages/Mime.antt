-- ===== src/Messages/Mime.antt =====
-- static/auth/unlock.js: MIME headers, transfer encodings and the encrypted part of a PGP/MIME message.
pub mod Headers
pub mod Transfer
pub mod Payload
