-- ===== src/Lumberjack.antt =====
-- crates/ferro-lumberjack: the Lumberjack v2 codec, its server and its client.
pub mod Sequence
pub mod Zlib
pub mod Frame
pub mod Error
pub mod Server
pub mod Client
pub mod Delivery
pub mod Acked
