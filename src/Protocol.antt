-- ===== src/Protocol.antt =====
-- packages/protocol: the wire format between the plugin and the relay's hub.
pub mod Bytes
pub mod EFrame
pub mod Frames
pub mod Codec
