-- ===== src/Storage.antt =====
-- The containers table of internal/storage/db.go: what a scan writes, what is read back, and the
-- statements that derive a history from the rows.
pub mod Containers
pub mod Lifecycle
pub mod Cleanup
pub mod Statistics
mod Tests
