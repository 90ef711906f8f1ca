-- ===== src/Protocol.antt =====
-- common/: the message type, the line buffer of a connection and the line codec.
pub mod Message
pub mod Session
pub mod Double
pub mod Codec
