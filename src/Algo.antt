-- ===== src/Algo.antt =====
-- algo.go: the choice of a program that makes deltas, and its runs.
pub mod Atoi
pub mod Pick
pub mod Stats
pub mod Delta
