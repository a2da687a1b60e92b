-- ===== src/Subst.antt =====
-- subst.go: the server that Nix asks for narinfos and nars.
pub mod Types
pub mod NarInfos
pub mod Recents
pub mod Nars
pub mod Site
pub mod Idle
