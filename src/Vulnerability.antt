-- ===== src/Vulnerability.antt =====
-- internal/vulnerability: image scans with Trivy, their cache, the queue of scan jobs and the settings.
pub mod Types
pub mod Storage
pub mod Cache
pub mod Scanner
pub mod Scheduler
pub mod Config
mod Tests
