-- ===== src/Relay.antt =====
-- packages/relay: the hub that live devices meet in.
pub mod Limits
pub mod Store
pub mod Peer
pub mod Delivery
pub mod Documents
pub mod Revoked
pub mod Core
