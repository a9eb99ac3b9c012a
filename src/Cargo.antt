-- ===== src/Cargo.antt =====
-- crates/ferro-cargo-registry-server: the sparse-index Cargo registry.
pub mod Error
pub mod Name
pub mod Json
pub mod Index
pub mod Publish
pub mod Registry
