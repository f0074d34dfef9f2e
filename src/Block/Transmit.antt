-- ===== src/Block/Transmit.antt =====
-- `class transmit_queue` of src/protocol/chop_blk.h and src/protocol/chop_blk.cc. The circular buffer is
-- a function of the index, which every access takes modulo 256; an element holds the bytes of its
-- evbuffer. The AES-GCM encryption of crypt.h is a parameter.
pub mod Discard
pub mod Window
pub mod Send
mod Tests
use stegotorus.Common.{
  ℕ, zero, suc, ◌+◌, ◌-◌, ◌%◌, ◌^◌, Bool, true, false, not, ◌&&◌, [], ◌++◌, leb, ltb, ◌==◌,
  if◌then◌else◌, Option, none, some, is_some, length, add32, sub32, update, slice, Outcome, returns,
  aborts, log_assert, ◌>>=◌, ◌>>◌,
}
use stegotorus.Common.Evbuffer.{Bytes, Evbuffer}
use stegotorus.Block.Opcode.{opcode_valid}
use stegotorus.Block.Header.{BlockCipher, Header, invalid, header, encode, prepare_retransmit}
use stegotorus.Block.Ack
use stegotorus.Block.Ack.{AckPayload, received, block_received}

pub record TransmitElt : Type 0 where
  pub hdr : Header
  pub contents : Option Bytes

pub record TransmitQueue : Type 0 where
  pub cbuf : ℕ → TransmitElt
  pub next_to_ack : ℕ
  pub next_to_send : ℕ
  pub overwrite_allowed : Bool

unfoldable pub transmit_queue : Bool → TransmitQueue
transmit_queue intend_to_retransmit = record {
  cbuf = λ _. record { hdr = invalid; contents = none };
  next_to_ack = 0;
  next_to_send = 0;
  overwrite_allowed = not intend_to_retransmit;
}

abbrev pub full : TransmitQueue → Bool
full q = not q.overwrite_allowed && ltb 255 (sub32 q.next_to_send q.next_to_ack)

unfoldable pub should_rekey : TransmitQueue → Bool
should_rekey q = leb 0x8000_0000 q.next_to_send

unfoldable pub enqueue : TransmitQueue → ℕ → Bytes → ℕ → Outcome (ℕ × TransmitQueue)
enqueue q f block padding = do
  log_assert (opcode_valid f)
  log_assert (leb (length block) (2 ^ 16 - 1))
  log_assert (not (full q))
  returns (
    q.next_to_send,
    record q {
      cbuf =
          update q.cbuf (q.next_to_send % 256) (record {
            hdr = header q.next_to_send (length block) padding f;
            contents = some block;
          });
      next_to_send = add32 q.next_to_send 1;
    },
  )

-- `gcm_encryptor::encrypt`: the plain text and the nonce, to the cipher text with its tag.
abbrev pub GcmEncryptor : Type 0
GcmEncryptor = Bytes → Bytes → Bytes

module _ (ev : Evbuffer) (ec : BlockCipher) (gc : GcmEncryptor) where
  -- The bytes of a block: the header, which is the nonce too, and the sealed data and padding.
  abbrev pub wire_block : Header → Bytes → Bytes
  wire_block h payload = encode ec h ++ gc (payload ++ slice (λ _. 0) 0 h.p) (encode ec h)

  -- The end of `transmit`: the block goes to a buffer of its own, and that to the output. `none` is
  -- the result -1.
  abbrev pub send_block : Bytes → Header → Bytes → Option Bytes
  send_block output h payload = elim (ev.add [] (wire_block h payload)) [
    | none ↦ none
    | some block ↦ ev.add output block
  ]

  abbrev pub transmit_contents : Bytes → Header → Bytes → Option Bytes
  transmit_contents output h contents = elim (ev.copyout contents h.d) [
    | none ↦ none
    | some payload ↦ if length payload == h.d then send_block output h payload else none
  ]

  unfoldable pub transmit_elt : TransmitElt → Bytes → Outcome (Option Bytes)
  transmit_elt elt output = elim elt.contents [
    | none ↦ aborts
    | some contents ↦ returns (transmit_contents output elt.hdr contents)
  ]

  unfoldable pub transmit : TransmitQueue → ℕ → Bytes → Outcome (Option Bytes)
  transmit q seqno output = do
    log_assert (leb q.next_to_ack seqno && ltb seqno q.next_to_send)
    transmit_elt (q.cbuf (seqno % 256)) output

  -- `retransmit` of an element, with the element afterwards.
  unfoldable pub retransmit_elt : TransmitElt → ℕ → Bytes → Outcome (Option Bytes × TransmitElt)
  retransmit_elt elt new_padding output =
      let (ok, hdr) = prepare_retransmit elt.hdr new_padding in
      let elt' : TransmitElt = record elt { hdr = hdr } in
      if ok
      then (transmit_elt elt' output >>= λ sent. returns (sent, elt'))
      else returns (none, elt)

  unfoldable pub retransmit : TransmitQueue → ℕ → ℕ → Bytes → Outcome (Option Bytes × TransmitQueue)
  retransmit q seqno new_padding output = do
    log_assert (leb q.next_to_ack seqno && ltb seqno q.next_to_send)
    (sent, elt) ← retransmit_elt (q.cbuf (seqno % 256)) new_padding output
    returns (sent, record q { cbuf = update q.cbuf (seqno % 256) elt })

-- The body of both loops of `process_ack`: an element gives up its block.
abbrev pub clear_slot : TransmitQueue → ℕ → TransmitQueue
clear_slot q seqno = record q {
  cbuf = update q.cbuf (seqno % 256) (record (q.cbuf (seqno % 256)) { contents = none });
}

-- `for (; next_to_ack <= hsn; next_to_ack++)`. The first argument bounds the rounds.
unfoldable pub release : ℕ → ℕ → TransmitQueue → TransmitQueue
release zero hsn q = q
release (suc rounds) hsn q =
    let rest =
      release rounds hsn
        (record (clear_slot q q.next_to_ack) { next_to_ack = add32 q.next_to_ack 1 }) in
    if leb q.next_to_ack hsn then rest else q

-- `for (uint32_t i = next_to_ack; i < next_to_send; i++)`, with a bound of the rounds again. The
-- payload is valid, so that `block_received` does not abort.
unfoldable pub discard : ℕ → ℕ → AckPayload → TransmitQueue → TransmitQueue
discard zero i ack q = q
discard (suc rounds) i ack q =
    let rest =
      discard rounds (add32 i 1) ack
        (if is_some (q.cbuf (i % 256)).contents && received ack i then clear_slot q i else q) in
    if ltb i q.next_to_send then rest else q

-- The end of `process_ack`, behind its first loop.
unfoldable pub finish_ack : AckPayload → TransmitQueue → TransmitQueue
finish_ack ack q =
    if q.next_to_ack == q.next_to_send
    then q
    else discard (q.next_to_send - q.next_to_ack) q.next_to_ack ack q

-- `process_ack` behind the decoding of the payload. The Boolean is true for the result 0, false for -1.
unfoldable pub apply_ack : AckPayload → TransmitQueue → Bool × TransmitQueue
apply_ack ack q =
    if not (Ack.valid ack)
    then (false, q)
    else if leb q.next_to_send ack.hsn
    then (false, q)
    else (true, finish_ack ack (release (ack.hsn + 1 - q.next_to_ack) ack.hsn q))

unfoldable pub process_ack : Evbuffer → TransmitQueue → Bytes → Outcome (Bool × TransmitQueue)
process_ack ev q wire = do ack ← Ack.decode ev wire q.next_to_ack; returns (apply_ack ack q)
