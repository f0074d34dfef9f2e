-- ===== src/Block/Tests.antt =====
-- Runs of the block layer (src/protocol/chop_blk.cc) at concrete inputs.
use stegotorus.Common.{
  ℕ, ◌≡◌, refl, arith, true, false, List, [], ◌∷◌, none, some, map, slice, length, if◌then◌else◌,
  ◌==◌, IsU32, returns, aborts,
}
use stegotorus.Common.Evbuffer.{Bytes, plain, plain-IsReliable}
use stegotorus.Block.Header.{BlockCipher, Header, encode, decode}
use stegotorus.Block.Header.RoundTrip.{decode-encode}
use stegotorus.Block.Ack
use stegotorus.Block.Ack.{AckPayload, ack_payload, set_block_received, received, mark, serialize}
use stegotorus.Block.Ack.Marks.{IsAck, block_received-set_block_received, mark-IsAck}
use stegotorus.Block.Ack.Wire.{decode-serialize, decode-Decoded, Decoded}
use stegotorus.Block.Reassembly.{
  ReassemblyQueue, reassembly_queue, insert, remove_next, gen_ack_payload,
}
use stegotorus.Block.Reassembly.Stream.{Call, insert_call, remove_call, queue_step, empty_stream}
use stegotorus.Block.Reassembly.Order.{
  queue_run, stream_run, delivered, queue_run-stream_run, queue_run_in_order,
}
use stegotorus.Block.Reassembly.Acks.{gen_ack_payload_aborts}

-- A cipher that changes nothing.
abbrev identity : BlockCipher
identity = record { encrypt = λ b. b; decrypt = λ b. b }

abbrev fifth : Header
fifth = record { s = 5; d = 300; p = 2; f = 1; r = 3 }

decode-encode_example : decode identity 0 (encode identity fifth) 1000 ≡ fifth
decode-encode_example = decode-encode identity 0 1000 fifth (λ b h. refl) (omega arith)

-- A block whose check field is not zero, inside the window.
abbrev forged : Bytes
forged = 0 ∷ 0 ∷ 0 ∷ 7 ∷ 0 ∷ 1 ∷ 0 ∷ 0 ∷ 1 ∷ 0 ∷ 9 ∷ 9 ∷ 9 ∷ 9 ∷ 9 ∷ 9 ∷ []

decode-forged : decode identity 0 forged 5 ≡ record { s = 7; d = 1; p = 0; f = 1; r = 0 }
unfolding decode
decode-forged = refl

-- Block 9 has been processed, and block 12 received.
abbrev ninth : AckPayload
ninth = record { hsn = 9; maxusedbyte = 0; window = λ _. 0 }

ninth-IsAck : IsAck ninth
ninth-IsAck = record {
  hsn_fits = omega arith;
  used_fits = omega arith;
  bytes = λ i. omega arith;
  clear_above = λ i h. refl;
}

block_received-set_block_received_example :
    (b : AckPayload) × (set_block_received ninth 12 ≡ returns b)
    × IsAck b
    × ((other : ℕ)
        → IsU32 other
        → received b other ≡ (if other == 12 then true else received ninth other))
block_received-set_block_received_example =
    block_received-set_block_received ninth 12 ninth-IsAck (omega arith) (omega arith)

abbrev marked : AckPayload
marked = mark ninth 2

decode-serialize_example :
    (wire : Bytes) × (serialize plain marked ≡ returns (some wire))
    × (Ack.decode plain wire 10 ≡ returns marked)
decode-serialize_example =
    decode-serialize plain plain-IsReliable marked 10 (mark-IsAck ninth 2 (omega arith) ninth-IsAck)
      (omega arith) (record { floor = omega arith; ceiling = omega arith; first_clear = refl })

decode-Decoded_example :
    (b : AckPayload) × (Ack.decode plain (0 ∷ 0 ∷ 0 ∷ 9 ∷ 4 ∷ []) 10 ≡ returns b) × Decoded 10 b
decode-Decoded_example =
    decode-Decoded plain plain-IsReliable (0 ∷ 0 ∷ 0 ∷ 9 ∷ 4 ∷ []) 10 (omega arith) (omega arith)

-- Block 1 comes before block 0, and block 0 twice.
abbrev script : List (Call ℕ ℕ)
script =
    insert_call 1 1 11 none
    ∷ remove_call
    ∷ insert_call 0 1 10 none
    ∷ insert_call 0 1 99 none
    ∷ remove_call
    ∷ remove_call
    ∷ []

delivered-script :
    delivered (queue_run reassembly_queue script).0 ≡ (10, 1, none) ∷ (11, 1, none) ∷ []
unfolding delivered queue_run queue_step reassembly_queue insert remove_next
delivered-script = refl

queue_run-stream_run_example :
    (queue_run reassembly_queue script).0 ≡ (stream_run empty_stream script).0
queue_run-stream_run_example = queue_run-stream_run script (omega arith) (omega arith)

queue_run_in_order_example :
    map some (delivered (queue_run reassembly_queue script).0)
    ≡ slice
        (stream_run empty_stream script).1.blocks
        0
        (length (delivered (queue_run reassembly_queue script).0))
queue_run_in_order_example = queue_run_in_order script (omega arith) (omega arith)

-- Blocks up to 254 are processed, and block 256 has come before block 255.
abbrev gone_round : ReassemblyQueue ℕ ℕ
gone_round = record {
  cbuf = λ i. record {
    contents = if i == 0 then some 7 else none;
    op = 1;
    steg_cfg = none;
    do_ack = false;
  };
  next_to_process = 255;
  count = 1;
}

gen_ack_payload_aborts_example : gen_ack_payload gone_round ≡ aborts
gen_ack_payload_aborts_example =
    gen_ack_payload_aborts gone_round 0 (omega arith) (omega arith) refl
