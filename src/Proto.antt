-- ===== src/Proto.antt =====
-- internal/proto: the wire frames and their codec.
pub mod Frames
pub mod Kinds
pub mod Search
pub mod Codec
