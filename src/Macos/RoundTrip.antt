-- ===== src/Macos/RoundTrip.antt =====
-- What `select` on macOS reads in a message that `send` has made and the kernel has carried over.
pub mod Descriptors
pub mod Payload
pub mod Delivery
