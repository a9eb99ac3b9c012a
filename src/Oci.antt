-- ===== src/Oci.antt =====
-- crates/ferro-oci-server: the OCI distribution server.
pub mod Error
pub mod Name
pub mod Reference
pub mod Upload
pub mod Registry
pub mod Server
pub mod Chunk
pub mod Push
pub mod Traffic
pub mod Listing
pub mod Range
pub mod MediaType
pub mod Content
pub mod Manifest
