-- ===== src/Telemetry.antt =====
-- The telemetry client: internal/telemetry and its tables of internal/storage/db.go.
pub mod Status
pub mod Types
pub mod Submitter
pub mod Collector
mod Tests
