-- ===== src/Examples.antt =====
-- Runs of the models on small inputs, and each theorem with hypotheses applied where they hold.
pub mod Data
pub mod Frames
pub mod Windows
pub mod Clients
pub mod Stores
pub mod Publishes
pub mod Requests
pub mod Uploads
pub mod Manifests
