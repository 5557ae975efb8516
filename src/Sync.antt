-- ===== src/Sync.antt =====
-- src/sync.rs: the delta crawl, a bounded number of pages in each run.
pub mod Crawl
pub mod Run
pub mod Stored
pub mod Loop
pub mod Resume
pub mod Written
mod Tests
