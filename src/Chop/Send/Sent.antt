-- ===== src/Chop/Send/Sent.antt =====
-- The way of a block through `send_targeted` of src/protocol/chop.cc, over the transmit queue.
use stegotorus.Common.{
  ℕ, ◌+◌, ◌-◌, ◌%◌, ◌^◌, ◌<◌, ◌≤◌, ◌≡◌, refl, ap, arith, Bool, true, false, not, ◌&&◌, ltb, leb,
  ◌==◌, if◌then◌else◌, some, [], length, take, drop, length-take, returns,
}
use stegotorus.Common.Evbuffer.{Bytes, Evbuffer, IsReliable}
use stegotorus.Block.Opcode.{opcode_valid}
use stegotorus.Block.Header.{BlockCipher, Header}
use stegotorus.Block.Transmit.{GcmEncryptor, TransmitElt, TransmitQueue, full, wire_block}
use stegotorus.Block.Transmit.Discard.{IsWindow}
use stegotorus.Block.Transmit.Window.{
  enqueue-IsWindow, enqueue-next_to_ack, enqueue-overwrite_allowed,
}
use stegotorus.Block.Transmit.Send.{transmit-wire_block, length-wire_block}
use stegotorus.Chop.{ChopConn, shake, section_len, min_block_size, max_block_size}
use stegotorus.Chop.Send.{
  ChopCircuit, Sending, note_sent, split_block, transmit_to, send_block_to, send_sized,
}
use stegotorus.Chop.Send.Sizes.{split_block_bounds}

-- The header of the next block of a circuit.
abbrev pub next_header : ChopCircuit → ℕ → ℕ → ℕ → Header
next_header c d p f = record { s = c.tx_queue.next_to_send; d = d; p = p; f = f; r = 0 }

-- What sending a block of `d` bytes of data and `p` of padding leaves.
pub record IsSent (ev : Evbuffer) (ec : BlockCipher) (gc : GcmEncryptor) (c : ChopCircuit)
    (d p f : ℕ) (payload : Bytes) (r : Sending) : Type 0 where
  pub success : r.ok ≡ true
  pub taken : r.left ≡ drop d payload
  pub whole : (b : Bytes) × (r.block ≡ some b) × (length b ≡ min_block_size + d + p)
  pub sealed : r.block ≡ some (wire_block ev ec gc (next_header c d p f) (take d payload))
  pub queued :
      r.circuit.tx_queue.cbuf (c.tx_queue.next_to_send % 256)
      ≡ record { hdr = next_header c d p f; contents = some (take d payload) }
  pub numbered : r.circuit.tx_queue.next_to_send ≡ c.tx_queue.next_to_send + 1
  pub window : IsWindow r.circuit.tx_queue
  pub same_ack : r.circuit.tx_queue.next_to_ack ≡ c.tx_queue.next_to_ack
  pub same_overwrite : r.circuit.tx_queue.overwrite_allowed ≡ c.tx_queue.overwrite_allowed
  pub noted : r.circuit ≡ note_sent (record c { tx_queue = r.circuit.tx_queue }) d f

module _ (ev : Evbuffer) (laws : IsReliable ev) (ec : BlockCipher) (gc : GcmEncryptor)
    (deliver : Bytes → Bool) (size : (b : Bytes) → length b ≡ 16 → length (ec.encrypt b) ≡ 16)
    (tag : (b nonce : Bytes) → length (gc b nonce) ≡ length b + 16)
    (sends : (b : Bytes) → deliver b ≡ true) where
  transmit_to_lem :
      (c : ChopCircuit) (q : TransmitQueue) (note : ChopCircuit → ChopCircuit) (seqno : ℕ)
      (left contents : Bytes)
      → (leb q.next_to_ack seqno && ltb seqno q.next_to_send) ≡ true
      → (q.cbuf (seqno % 256)).contents ≡ some contents
      → length contents ≡ (q.cbuf (seqno % 256)).hdr.d
      → transmit_to ev ec gc deliver note (record c { tx_queue = q }) seqno left
        ≡ returns (record {
          ok = true;
          circuit = note (record c { tx_queue = q });
          left = left;
          block = some (wire_block ev ec gc (q.cbuf (seqno % 256)).hdr contents);
        })
  unfolding transmit_to
  transmit_to_lem c q note seqno left contents out there fits =
      rw
        (
          transmit-wire_block ev laws ec gc q seqno [] contents out there fits,
          sends (wire_block ev ec gc (q.cbuf (seqno % 256)).hdr contents),
        )
        refl

  -- Sending a block of given sizes.
  send_block_to-IsSent :
      (c : ChopCircuit) (d p f : ℕ) (payload : Bytes)
      → IsWindow c.tx_queue
      → c.tx_queue.next_to_send + 257 < 2 ^ 32
      → c.tx_queue.next_to_send < c.tx_queue.next_to_ack + 256
      → opcode_valid f ≡ true
      → d ≤ section_len
      → d ≤ length payload
      → p ≤ section_len
      → (r : Sending) × (send_block_to ev ec gc deliver c d p f payload ≡ returns r)
        × IsSent ev ec gc c d p f payload r
  unfolding send_block_to
  send_block_to-IsSent c d p f payload w room space valid short there pad =
      let data_size : length (take d payload) ≡ d = omega (arith, length-take d payload) in
      let (q, e, w', next, slot, others) =
        enqueue-IsWindow c.tx_queue f (take d payload) p w room space valid (omega arith) in
      let element : q.cbuf (c.tx_queue.next_to_send % 256)
          ≡ record { hdr = next_header c d p f; contents = some (take d payload) } =
        rw data_size at slot in
      let same_ack =
        enqueue-next_to_ack c.tx_queue q f c.tx_queue.next_to_send (take d payload) p e in
      let sending = c.tx_queue.next_to_send in
      let out : (leb q.next_to_ack sending && ltb sending q.next_to_send) ≡ true =
        ground (arith, w.in_order) in
      let free : full c.tx_queue ≡ false = ground (arith, w.in_order) in
      let fits_d : leb d section_len ≡ true = ground arith in
      let fits_p : leb p section_len ≡ true = ground arith in
      let exact : (length (take d payload) == d) ≡ true = ground arith in
      (
        record {
          ok = true;
          circuit = note_sent (record c { tx_queue = q }) d f;
          left = drop d payload;
          block = some (wire_block ev ec gc (q.cbuf (sending % 256)).hdr (take d payload));
        },
        rw (fits_d, fits_p, free, laws.remove_lem payload d, exact, e)
            (transmit_to_lem c q (λ c'. note_sent c' d f) sending (drop d payload) (take d payload)
              out (ap (λ (t : TransmitElt). t.contents) slot) (rw slot refl)),
        record {
          success = refl;
          taken = refl;
          whole = (
            wire_block ev ec gc (q.cbuf (sending % 256)).hdr (take d payload),
            refl,
            omega (
              arith,
              length-wire_block ev laws ec gc (q.cbuf (sending % 256)).hdr (take d payload) size
                  tag,
              ap (λ (t : TransmitElt). t.hdr.p) slot,
              data_size,
            ),
          );
          sealed =
              ap (λ (t : TransmitElt). some (wire_block ev ec gc t.hdr (take d payload))) element;
          queued = element;
          numbered = next;
          window = w';
          same_ack = same_ack;
          same_overwrite =
              enqueue-overwrite_allowed c.tx_queue q f c.tx_queue.next_to_send (take d payload) p e;
          noted = refl;
        },
      )

valid_either :
    (op op_last : ℕ)
    → opcode_valid op ≡ true
    → opcode_valid op_last ≡ true
    → (last : Bool) → opcode_valid (if last then op_last else op) ≡ true
valid_either op op_last a b true = b
valid_either op op_last a b false = a

pub send_sized-IsSent :
    (ev : Evbuffer) (ec : BlockCipher) (gc : GcmEncryptor) (deliver : Bytes → Bool)
    (op op_last blocksize : ℕ) (conn : ChopConn) (payload : Bytes) (c : ChopCircuit)
    → IsReliable ev
    → ((b : Bytes) → length b ≡ 16 → length (ec.encrypt b) ≡ 16)
    → ((b nonce : Bytes) → length (gc b nonce) ≡ length b + 16)
    → ((b : Bytes) → deliver b ≡ true)
    → IsWindow c.tx_queue
    → c.tx_queue.next_to_send + 257 < 2 ^ 32
    → c.tx_queue.next_to_send < c.tx_queue.next_to_ack + 256
    → opcode_valid op ≡ true
    → opcode_valid op_last ≡ true
    → min_block_size + shake conn ≤ blocksize
    → blocksize ≤ max_block_size + shake conn
    → blocksize ≤ min_block_size + shake conn + length payload + section_len
    → (let (d, last) =
          split_block
            (blocksize - (min_block_size + shake conn))
            (length payload)
            (c.upstream_eof && not c.sent_fin) in
        (r : Sending) × (send_sized ev ec gc deliver op op_last conn blocksize payload c
          ≡ returns r)
        × IsSent ev ec gc c d
            (blocksize - (min_block_size + shake conn) - d)
            (if last then op_last else op)
            payload
            r
        × ((b : Bytes) → r.block ≡ some b → length b + shake conn ≡ blocksize))
unfolding send_sized
send_sized-IsSent ev ec gc deliver op op_last blocksize conn payload c laws size tag sends w room
      space valid valid_last lo hi pad =
    let lowest = min_block_size + shake conn in
    let rest = blocksize - lowest in
    let s = split_block rest (length payload) (c.upstream_eof && not c.sent_fin) in
    let bounds =
      split_block_bounds rest (length payload) (c.upstream_eof && not c.sent_fin) (omega arith)
        (omega arith) in
    let in_range : (leb lowest blocksize && leb blocksize (max_block_size + shake conn)) ≡ true =
      ground arith in
    let f = (if s.1 then op_last else op) in
    let f_valid : opcode_valid f ≡ true = valid_either op op_last valid valid_last s.1 in
    let (r, e, sent) =
      send_block_to-IsSent ev laws ec gc deliver size tag sends c s.0 (rest - s.0) f payload w room
        space f_valid bounds.1 bounds.0 bounds.3 in
    (
      r,
      rw in_range e,
      sent,
      λ b same.
          (let (b', there, long) = sent.whole in
            let eq : b ≡ b' = cc in rw eq (omega (arith, long, bounds.2))),
    )
