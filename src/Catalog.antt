-- ===== src/Catalog.antt =====
-- catalog.go: the index of local store paths, and the choice of a base for a requested path.
pub mod Names
pub mod Item
pub mod Patterns
pub mod Index
pub mod FindBase
pub mod Trees
pub mod Update
pub mod Start
