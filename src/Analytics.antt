-- ===== src/Analytics.antt =====
-- analytics.go: the log, what it adds up to, and how numbers are printed.
pub mod Records
pub mod Tally
pub mod Report
pub mod Segments
