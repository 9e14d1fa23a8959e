-- ===== src/Socket.antt =====
-- include/io/socket: the buffers of messages.
pub mod Windows
pub mod Message
pub mod Handle
pub mod Sync
pub mod Dialog
pub mod Iterator
pub mod Option
