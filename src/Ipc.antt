-- ===== src/Ipc.antt =====
-- src/ipc.rs: typed channels over a platform's transport.
pub mod Platform
pub mod Value
pub mod Tables
pub mod Send
pub mod Message
pub mod Receiver
pub mod Local
mod Tests
