-- ===== src/Notifications.antt =====
-- internal/notifications: events are detected after each scan, matched against the rules, filtered by
-- silences, rate limited and delivered. One child for each part.
pub mod RateLimiter
pub mod Rules
pub mod Silences
pub mod Thresholds
pub mod Log
pub mod Detect
pub mod Pipeline
pub mod Channels
pub mod Delivery
pub mod Baselines
mod Tests
