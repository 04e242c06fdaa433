-- ===== src/Windows.antt =====
-- src/platform/windows/mod.rs and aliased_cell.rs: the transport over named pipes.
pub mod System
pub mod Errors
pub mod Handle
pub mod Message
pub mod SharedMemory
pub mod Reader
pub mod Receiver
pub mod Send
pub mod ReceiverSet
pub mod OneShot
pub mod RoundTrip
mod Tests
