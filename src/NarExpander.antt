-- ===== src/NarExpander.antt =====
-- narexpander.go: the nar format with its compressed files expanded.
pub mod Varint
pub mod Xz
pub mod Entries
pub mod Expand
pub mod Collapse
pub mod Restored
pub mod Filter
pub mod Actions
pub mod Pipeline
pub mod Options
