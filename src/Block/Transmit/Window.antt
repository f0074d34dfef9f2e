-- ===== src/Block/Transmit/Window.antt =====
-- The transmit queue's window of sequence numbers (src/protocol/chop_blk.cc): `enqueue`
-- keeps at most 256 blocks out, each in the slot of its number.
use stegotorus.Common.{
  ℕ, ◌+◌, ◌%◌, ◌^◌, ◌≤◌, ◌<◌, ◌≡◌, arith, true, some, length, returns, add32, update,
}
use stegotorus.Common.Evbuffer.{Bytes}
use stegotorus.Block.Opcode.{opcode_valid}
use stegotorus.Block.Header.{header}
use stegotorus.Block.Transmit.{TransmitQueue, enqueue}
use stegotorus.Block.Transmit.Discard.{held, IsWindow}

-- What was acknowledged is not touched.
pub enqueue-next_to_ack :
    (q r : TransmitQueue) (f s : ℕ) (block : Bytes) (padding : ℕ)
    → enqueue q f block padding ≡ returns (s, r)
    → r.next_to_ack ≡ q.next_to_ack
unfolding enqueue
enqueue-next_to_ack q r f s block padding e = ground arith

-- Nor is the leave to overwrite blocks.
pub enqueue-overwrite_allowed :
    (q r : TransmitQueue) (f s : ℕ) (block : Bytes) (padding : ℕ)
    → enqueue q f block padding ≡ returns (s, r)
    → r.overwrite_allowed ≡ q.overwrite_allowed
unfolding enqueue
enqueue-overwrite_allowed q r f s block padding e = ground arith

-- On a queue with fewer than 256 blocks out and no number near 2^32, `enqueue` of a block with a
-- valid opcode and at most 65535 bytes returns. It gives the block the next number and keeps the
-- window; the block is held under its number with the header for it, and the blocks that were out
-- before are held as they were.
pub enqueue-IsWindow :
    (q : TransmitQueue) (f : ℕ) (block : Bytes) (padding : ℕ)
    → IsWindow q
    → q.next_to_send + 257 < 2 ^ 32
    → q.next_to_send < q.next_to_ack + 256
    → opcode_valid f ≡ true
    → length block ≤ 65535
    → (r : TransmitQueue) × (enqueue q f block padding ≡ returns (q.next_to_send, r))
      × IsWindow r
      × (r.next_to_send ≡ q.next_to_send + 1)
      × (r.cbuf (q.next_to_send % 256) ≡ record {
        hdr = record { s = q.next_to_send; d = length block; p = padding; f = f; r = 0 };
        contents = some block;
      })
      × ((s : ℕ) → q.next_to_ack ≤ s → s < q.next_to_send → held r s ≡ held q s)
unfolding enqueue header
enqueue-IsWindow q f block padding w room space valid short = (
  record q {
    cbuf =
        update q.cbuf (q.next_to_send % 256)
          (record { hdr = header q.next_to_send (length block) padding f; contents = some block });
    next_to_send = add32 q.next_to_send 1;
  },
  rw (valid) (ground (arith, w.in_order)),
  record { in_order = omega (arith, w.in_order); at_most = omega arith; fits = omega arith },
  omega arith,
  rw (valid) (ground arith),
  λ s lo hi. ground (arith),
)
