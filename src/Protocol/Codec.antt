-- ===== src/Protocol/Codec.antt =====
-- common/src/protocol/line_codec.c: the names of roles and types, `line_parse` and `line_format`.
pub mod Numbers
pub mod Tokens
pub mod Parse
pub mod Format
pub mod Render
pub mod Sendable
pub mod Received
pub mod RoundTrip
pub mod Bounds
