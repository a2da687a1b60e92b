-- ===== src/Transfer.antt =====
-- The substituter and the differ together: a nar by way of a delta.
pub mod Setting
pub mod Sent
pub mod Received
pub mod Refused
pub mod Whole
