-- ===== src/Filters.antt =====
-- The mail filters that run in the browser: static/mail/mail-filter-ledger.js and
-- static/mail/mail-filter-engine.js.
pub mod Ledger
pub mod Match
pub mod Rules
pub mod Actions
pub mod Pass
mod Tests
