-- ===== src/External.antt =====
-- What the program takes from third-party packages: the cache of groupcache/lru behind its laws,
-- and the struct of go-nix/narinfo.
pub mod Lru
pub mod NarInfo
pub mod Base32
pub mod NarTools
pub mod System
pub mod Web
