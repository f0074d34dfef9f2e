-- ===== src/Block/Transmit/Discard.antt =====
-- Which blocks `process_ack` (src/protocol/chop_blk.cc) takes off the transmit queue.
use stegotorus.Common.{
  ℕ, zero, suc, ◌+◌, ◌-◌, ◌%◌, ◌^◌, ◌≤◌, ◌<◌, ◌≡◌, refl, ap, ◌∙◌, arith, Bool, true, false,
  Bool-cases, inl, inr, ◌&&◌, leb, ltb, ◌==◌, if◌then◌else◌, Option, none, is_some, add32,
  minus_one,
}
use stegotorus.Common.Evbuffer.{Bytes}
use stegotorus.Block.Ack.{AckPayload, received}
use stegotorus.Block.Transmit.{TransmitQueue, clear_slot, release, discard, finish_ack, apply_ack}

abbrev pub held : TransmitQueue → ℕ → Option Bytes
held q seqno = (q.cbuf (seqno % 256)).contents

-- At most 256 blocks are out, and their numbers have not wrapped.
pub record IsWindow (q : TransmitQueue) : Type 0 where
  pub in_order : q.next_to_ack ≤ q.next_to_send
  pub at_most : q.next_to_send ≤ q.next_to_ack + 256
  pub fits : q.next_to_send + 256 < 2 ^ 32

-- What the first loop does, from the element at `next_to_ack` on.
record Released (hsn : ℕ) (q r : TransmitQueue) : Type 0 where
  ack_next : r.next_to_ack ≡ hsn + 1
  send_same : r.next_to_send ≡ q.next_to_send
  slots :
      (s : ℕ)
      → q.next_to_ack ≤ s
      → s < q.next_to_ack + 256
      → held r s ≡ (if leb s hsn then none else held q s)

release_lem :
    (rounds hsn : ℕ) (q : TransmitQueue)
    → q.next_to_ack + rounds ≡ hsn + 1
    → rounds ≤ 256
    → hsn + 1 < 2 ^ 32
    → Released hsn q (release rounds hsn q)
unfolding release
release_lem zero hsn q e l h = record {
  ack_next = omega arith;
  send_same = refl;
  slots = λ s lo hi. ground arith;
}
release_lem (suc rounds) hsn q e l h =
    let q' : TransmitQueue = record (clear_slot q q.next_to_ack) {
      next_to_ack = add32 q.next_to_ack 1;
    } in
    let ih : Released hsn q' (release rounds hsn q') =
      release_lem rounds hsn q' (omega arith) (omega arith) h in
    let more : leb q.next_to_ack hsn ≡ true = ground arith in
    rw (more) (record {
      ack_next = ih.ack_next;
      send_same = ih.send_same;
      slots = λ s lo hi. ground (arith, ih.slots s, ih.slots (s + 256));
    })

record Discarded (i rounds : ℕ) (a : AckPayload) (q r : TransmitQueue) : Type 0 where
  ack_same : r.next_to_ack ≡ q.next_to_ack
  send_same : r.next_to_send ≡ q.next_to_send
  slots :
      (s : ℕ)
      → i ≤ s
      → s < i + 256
      → held r s ≡ (if ltb s (i + rounds) && received a s then none else held q s)

-- The body of the second loop, at an element that the payload reports as received or not.
visit : ℕ → Bool → TransmitQueue → TransmitQueue
visit i seen q = if is_some (q.cbuf (i % 256)).contents && seen then clear_slot q i else q

held-visit :
    (i : ℕ) (seen : Bool) (q : TransmitQueue) (s : ℕ)
    → held (visit i seen q) s ≡ (if s % 256 == i % 256 && seen then none else held q s)
unfolding visit
held-visit i true q s = ground arith
held-visit i false q s = ground arith

next-visit :
    (i : ℕ) (seen : Bool) (q : TransmitQueue)
    → ((visit i seen q).next_to_ack ≡ q.next_to_ack)
      × ((visit i seen q).next_to_send ≡ q.next_to_send)
unfolding visit
next-visit i seen q = ground arith

discard_lem :
    (rounds i : ℕ) (a : AckPayload) (q : TransmitQueue)
    → i + rounds ≡ q.next_to_send
    → rounds ≤ 256
    → q.next_to_send < 2 ^ 32
    → Discarded i rounds a q (discard rounds i a q)
unfolding discard visit
discard_lem zero i a q e l h = record {
  ack_same = refl;
  send_same = refl;
  slots = λ s lo hi. ground arith;
}
discard_lem (suc rounds) i a q e l h =
    let q' : TransmitQueue = visit i (received a i) q in
    let v = next-visit i (received a i) q in
    let next : add32 i 1 ≡ i + 1 = omega arith in
    let ih : Discarded (i + 1) rounds a q' (discard rounds (i + 1) a q') =
      discard_lem rounds (i + 1) a q' (omega (arith, v.1)) (omega arith) (omega (arith, v.1)) in
    let more : ltb i q.next_to_send ≡ true = ground arith in
    rw (more, next)
      (record {
        ack_same = ih.ack_same ∙ v.0;
        send_same = ih.send_same ∙ v.1;
        slots = λ s lo hi. elim (Bool-cases (s == i)) [
          | inl first ↦
              let same : s ≡ i = ground arith in
              ground (
                arith,
                ap (received a) same,
                ih.slots (s + 256),
                held-visit i (received a i) q (s + 256),
              )
          | inr later ↦ ground (arith, ih.slots s, held-visit i (received a i) q s)
        ];
      })

received_old : (a : AckPayload) (s : ℕ) → s ≤ a.hsn → received a s ≡ true
unfolding received
received_old a s h = ground arith

-- What an acknowledgment does to a queue.
pub record Acked (a : AckPayload) (q r : TransmitQueue) : Type 0 where
  pub ack_next : r.next_to_ack ≡ a.hsn + 1
  pub send_same : r.next_to_send ≡ q.next_to_send
  pub slots :
      (s : ℕ)
      → q.next_to_ack ≤ s
      → s < q.next_to_send
      → held r s ≡ (if received a s then none else held q s)

finish_ack-Acked :
    (a : AckPayload) (q r : TransmitQueue)
    → IsWindow q
    → q.next_to_ack ≤ a.hsn + 1
    → a.hsn < q.next_to_send
    → Released a.hsn q r
    → Acked a q (finish_ack a r)
unfolding finish_ack
finish_ack-Acked a q r w low hi rel = elim (Bool-cases (r.next_to_ack == r.next_to_send)) [
  | inl all ↦ rw all (record {
    ack_next = rel.ack_next;
    send_same = rel.send_same;
    slots = λ s lo sent.
        ground (arith, w.at_most, rel.ack_next, rel.send_same, rel.slots s, received_old a s);
  })
  | inr some_left ↦
      let d =
        discard_lem (r.next_to_send - r.next_to_ack) r.next_to_ack a r
          (omega (arith, rel.ack_next, rel.send_same))
          (omega (arith, rel.ack_next, rel.send_same, w.at_most))
          (omega (arith, rel.send_same, w.fits)) in
      rw some_left (record {
        ack_next = d.ack_same ∙ rel.ack_next;
        send_same = d.send_same ∙ rel.send_same;
        slots = λ s lo sent. elim (Bool-cases (leb s a.hsn)) [
          | inl old ↦ ground (
            arith,
            w.at_most,
            rel.ack_next,
            rel.send_same,
            rel.slots s,
            received_old a s,
            d.slots (s + 256),
          )
          | inr new ↦ ground (arith, w.at_most, rel.ack_next, rel.send_same, rel.slots s, d.slots s)
        ];
      })
]

-- On a queue with at most 256 blocks out and no number near 2^32, an acknowledgment that is not
-- older than the last one and of blocks that were sent is taken. The queue goes on behind its
-- number and `next_to_send` stays. Of the blocks that were out exactly those are dropped that it
-- reports as received; the others are held as they were.
pub apply_ack-Acked :
    (a : AckPayload) (q : TransmitQueue)
    → IsWindow q
    → q.next_to_ack ≤ a.hsn + 1
    → a.hsn < q.next_to_send
    → ((apply_ack a q).0 ≡ true) × Acked a q (apply_ack a q).1
unfolding apply_ack
apply_ack-Acked a q w lo hi =
    let rel =
      release_lem (a.hsn + 1 - q.next_to_ack) a.hsn q (omega arith) (omega (arith, w.at_most))
        (omega (arith, w.fits)) in
    let is_valid : (a.hsn == minus_one) ≡ false = ground (arith, w.fits) in
    let sent : leb q.next_to_send a.hsn ≡ false = ground arith in
    rw (is_valid, sent) (refl, finish_ack-Acked a q _ w lo hi rel)
