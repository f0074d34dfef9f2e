-- ===== src/Chop.antt =====
-- src/protocol/chop.cc: the chopper's circuits, over the queues of the block layer. The children follow
-- its operations: `Timers`, `Pick` (pick_connection),
-- `Send`, `Receive` and `Retransmit`.
pub mod Timers
pub mod Pick
pub mod Send
pub mod Receive
pub mod Retransmit
mod Tests
use stegotorus.Common.{ℕ, ◌+◌, ◌*◌, Bool, if◌then◌else◌}
use stegotorus.Block.Header.{header_len, trailer_len}

abbrev pub section_len : ℕ
section_len = 65535

abbrev pub min_block_size : ℕ
min_block_size = header_len + trailer_len

abbrev pub max_block_size : ℕ
max_block_size = min_block_size + section_len * 2

abbrev pub handshake_len : ℕ
handshake_len = 32

-- What a circuit sees of a `chop_conn_t`. `room` is the virtual function `transmit_room` of its
-- steganography module, with its arguments `pref`, `min` and `max`.
pub record ChopConn : Type 0 where
  pub has_steg : Bool
  pub connected : Bool
  pub sent_handshake : Bool
  pub room : ℕ → ℕ → ℕ → ℕ

-- The bytes that a handshake still adds.
abbrev pub shake : ChopConn → ℕ
shake c = if c.sent_handshake then 0 else handshake_len
