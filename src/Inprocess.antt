-- ===== src/Inprocess.antt =====
-- src/platform/inprocess/mod.rs: the transport within one process, over crossbeam channels.
pub mod Channel
pub mod ReceiverSet
pub mod Table
pub mod Aligned
pub mod Errors
pub mod OneShot
mod Tests
