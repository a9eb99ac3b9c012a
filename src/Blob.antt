-- ===== src/Blob.antt =====
-- crates/ferro-blob-store: content digests and the in-memory blob store.
pub mod Digest
pub mod Memory
pub mod Interface
