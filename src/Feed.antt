-- ===== src/Feed.antt =====
-- The feed handler and its sender, the programs src/mold_recv.cpp and src/mold_send.cpp.
mod Tests
pub mod Receive
pub mod Send
pub mod Deliver
pub mod Arrived
pub mod Sent
pub mod Packed
pub mod Filling
pub mod Session
pub mod EndToEnd
pub mod GapsClosed
