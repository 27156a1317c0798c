-- ===== src/Mold.antt =====
-- MoldUDP64, include/MoldUdp64.hpp: packets, their writer, and the sequencer.
mod Tests
mod WriterTests
pub mod Packet
pub mod Writer
pub mod Frame
pub mod Decode
pub mod Written
pub mod Finished
pub mod Sequencer
