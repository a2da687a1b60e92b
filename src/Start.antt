-- ===== src/Start.antt =====
-- How the program starts: its configuration, and what main.go runs.
pub mod Config
pub mod Main
