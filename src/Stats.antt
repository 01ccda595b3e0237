-- ===== src/Stats.antt =====
-- The package stats: sample windows (stats/window.go), counters and method trackers.
pub mod Window
pub mod Counters
pub mod Tracker
mod Tests
