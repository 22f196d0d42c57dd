-- ===== src/Live.antt =====
-- Live documents on a device: what waits to be sent, how far the room's log is held, and the session
-- that keeps a document in step with its room.
pub mod Outbox
pub mod RoomLog
pub mod Session
