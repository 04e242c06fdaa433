-- ===== src/Unix.antt =====
-- src/platform/unix/mod.rs: the transport over Unix sockets.
pub mod Kernel
pub mod Size
pub mod Cmsg
pub mod Handles
pub mod SharedMemory
pub mod Send
pub mod Recv
pub mod Errors
pub mod ReceiverSet
mod Tests
