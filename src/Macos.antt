-- ===== src/Macos.antt =====
-- src/platform/macos/mod.rs: the transport over Mach ports.
pub mod System
pub mod Errors
pub mod Message
pub mod Ports
pub mod Send
pub mod Receive
pub mod ReceiverSet
pub mod OneShot
pub mod RoundTrip
mod Tests
