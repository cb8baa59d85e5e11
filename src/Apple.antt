-- ===== src/Apple.antt =====
-- src/apple: the containers for raw streams.
pub mod Bvxn
pub mod Decmpfs
mod Witnesses
