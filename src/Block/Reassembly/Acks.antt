-- ===== src/Block/Reassembly/Acks.antt =====
-- The acknowledgment that `gen_ack` (src/protocol/chop_blk.cc) makes of the reassembly queue.
use stegotorus.Common.{
  ℕ, zero, suc, ◌+◌, ◌-◌, ◌%◌, ◌≤◌, ◌<◌, ◌≡◌, refl, ap, ◌∙◌, arith, true, false, ◌==◌,
  if◌then◌else◌, inl, inr, ◌⊎◌, is_some, IsU32, Outcome, returns, aborts,
}
use stegotorus.Block.Ack.{AckPayload, ack_payload, set_block_received, offset}
use stegotorus.Block.Reassembly.{
  ReassemblyQueue, front, seq_at, ack_slot, ack_loop, gen_ack_payload,
}

Outcome-cases {ℓ} : {A : Type ℓ} (o : Outcome A) → (o ≡ aborts) ⊎ ((a : A) × (o ≡ returns a))
Outcome-cases aborts = inl refl
Outcome-cases (returns a) = inr (a, refl)

module _ {D C : Type 0} where
  -- A round changes neither the number of the payload nor which elements hold a block.
  record Keeps (a b : AckPayload) (q r : ReassemblyQueue D C) : Type 0 where
    same_hsn : b.hsn ≡ a.hsn
    same_next : r.next_to_process ≡ q.next_to_process
    same_slots : (j : ℕ) → is_some (r.cbuf j).contents ≡ is_some (q.cbuf j).contents

  ack_slot-Keeps :
      (a b : AckPayload) (q r : ReassemblyQueue D C) (pos : ℕ)
      → ack_slot a q pos ≡ returns (b, r)
      → Keeps a b q r
  unfolding ack_slot set_block_received
  ack_slot-Keeps a b q r pos e = record {
    same_hsn = ground arith;
    same_next = ground arith;
    same_slots = λ j. ground arith;
  }

  -- Behind the front the computed sequence number is too small, and so its place in the window too
  -- large.
  ack_slot_behind :
      (a : AckPayload) (q : ReassemblyQueue D C) (pos : ℕ)
      → IsU32 q.next_to_process
      → a.hsn + 1 ≡ q.next_to_process
      → pos < front q
      → is_some (q.cbuf pos).contents ≡ true
      → ack_slot a q pos ≡ aborts
  unfolding ack_slot set_block_received
  ack_slot_behind a q pos h e l full =
      let far : 256 ≤ offset a (seq_at q.next_to_process pos) = omega arith in ground arith

  ack_loop_behind :
      (k i rounds pos : ℕ) (a : AckPayload) (q : ReassemblyQueue D C)
      → IsU32 q.next_to_process
      → a.hsn + 1 ≡ q.next_to_process
      → pos < front q
      → is_some (q.cbuf pos).contents ≡ true
      → front q + i + k ≡ pos + 256
      → k < rounds
      → ack_loop rounds ((front q + i) % 256) a q ≡ aborts
  unfolding ack_loop
  ack_loop_behind k i zero pos a q h e l full d r = refl
  ack_loop_behind zero i (suc rounds) pos a q h e l full d r =
      let here : (front q + i) % 256 ≡ pos = omega arith in
      rw (here) (rw (ack_slot_behind a q pos h e l full, ack_loop) refl)
  ack_loop_behind (suc k) i (suc rounds) pos a q h e l full d r =
      elim (Outcome-cases (ack_slot a q ((front q + i) % 256))) [
        | inl stop ↦ rw (stop, ack_loop) refl
        | inr ((b, q'), go) ↦
            let kept = ack_slot-Keeps a b q q' ((front q + i) % 256) go in
            let more : (((front q + i) % 256 + 1) % 256 == front q) ≡ false = ground arith in
            let next : ((front q + i) % 256 + 1) % 256 ≡ (front q' + (i + 1)) % 256 =
              omega (arith, kept.same_next) in
            rw (go, ack_loop, more, next)
              (ack_loop_behind k (i + 1) rounds pos b q' (omega (arith, kept.same_next))
                (omega (arith, kept.same_hsn, kept.same_next)) (omega (arith, kept.same_next))
                (kept.same_slots pos ∙ full) (omega (arith, kept.same_next)) (omega arith))
      ]

  -- Where the next number is a uint32_t and a block lies in the queue at an index below the front,
  -- which is past the end of the buffer and gone round, `gen_ack` ends the process.
  pub gen_ack_payload_aborts :
      (q : ReassemblyQueue D C) (pos : ℕ)
      → IsU32 q.next_to_process
      → pos < front q
      → is_some (q.cbuf pos).contents ≡ true
      → gen_ack_payload q ≡ aborts
  unfolding gen_ack_payload ack_payload
  gen_ack_payload_aborts q pos h l full =
      let hsn : ℕ = if q.next_to_process == 0 then 0 else q.next_to_process - 1 in
      let below : hsn + 1 ≡ q.next_to_process = ground arith in
      let start : front q ≡ (front q + 0) % 256 = omega arith in
      ap (λ p. ack_loop 256 p (ack_payload hsn) q) start
      ∙ ack_loop_behind (pos + 256 - front q) 0 256 pos (ack_payload hsn) q h below l full
          (omega arith) (omega arith)
