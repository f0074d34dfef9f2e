-- ===== src/Block.antt =====
-- src/protocol/chop_blk.h and src/protocol/chop_blk.cc
pub mod Opcode
pub mod Header
pub mod Ack
pub mod Reassembly
pub mod Transmit
mod Tests
