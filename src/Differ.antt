-- ===== src/Differ.antt =====
-- differ.go: the server that makes deltas.
pub mod Download
pub mod Wire
pub mod Server
