-- ===== src/SysChecker.antt =====
-- syschecker.go: the "system" of a store path, from the loaders that its libc has.
pub mod Systems
pub mod Presence
pub mod Cached
pub mod Batch
