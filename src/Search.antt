-- ===== src/Search.antt =====
-- The local search of the mail page, static/mail/search/.
pub mod Terms
pub mod Client
pub mod Postings
pub mod Merge
mod Tests
