-- ===== src/Block/Ack/Marks.antt =====
-- What an `ack_payload` says of each block, after the marks that were made in it.
use stegotorus.Common.{
  ℕ, ◌+◌, ◌-◌, ◌/◌, ◌%◌, ◌≤◌, ◌<◌, ◌≡◌, refl, ap, ◌∙◌, inl, inr, arith, Bool, true, Bool-cases, leb,
  ◌==◌, if◌then◌else◌, test_bit, set_bit-lt, test_bit-set_bit, IsByte, IsU32, minus_one, returns,
}
use stegotorus.Block.Ack.{AckPayload, ack_payload, offset, received, mark, set_block_received}

-- A valid payload of 32 bytes, of which those from `maxusedbyte` on are clear.
pub record IsAck (a : AckPayload) : Type 0 where
  pub hsn_fits : a.hsn < minus_one
  pub used_fits : a.maxusedbyte ≤ 32
  pub bytes : (i : ℕ) → IsByte (a.window i)
  pub clear_above : (i : ℕ) → a.maxusedbyte ≤ i → a.window i ≡ 0

-- The blocks past `hsn` that the window covers.
abbrev pub InWindow : AckPayload → ℕ → Type 0
InWindow a seq = (a.hsn < seq) × (seq ≤ a.hsn + 256)

offset_lem :
    (a : AckPayload) (seq : ℕ)
    → IsU32 a.hsn
    → IsU32 seq
    → a.hsn < seq
    → offset a seq ≡ seq - a.hsn - 1
offset_lem a seq h k l = omega arith

pub ack_payload-IsAck : (h : ℕ) → h < minus_one → IsAck (ack_payload h)
unfolding ack_payload
ack_payload-IsAck h l = record {
  hsn_fits = l;
  used_fits = omega arith;
  bytes = λ i. omega arith;
  clear_above = λ i _. refl;
}

pub mark-IsAck : (a : AckPayload) (delta : ℕ) → delta < 256 → IsAck a → IsAck (mark a delta)
mark-IsAck a delta l v = record {
  hsn_fits = v.hsn_fits;
  used_fits = ground (arith, v.used_fits);
  bytes = λ i.
      ground
        (arith, v.bytes i, set_bit-lt (a.window (delta / 8)) (delta % 8) (v.bytes (delta / 8)));
  clear_above = λ i h. ground (arith, v.clear_above i);
}

-- Marking one place of the window sets its bit and no other.
mark_bit :
    (a : AckPayload) (delta other : ℕ)
    → delta < 256
    → other < 256
    → IsAck a
    → test_bit ((mark a delta).window (other / 8)) (other % 8)
      ≡ (if other == delta then true else test_bit (a.window (other / 8)) (other % 8))
mark_bit a delta other l k v = elim (Bool-cases (other / 8 == delta / 8)) [
  | inl e ↦
      let same : other / 8 ≡ delta / 8 = ground arith in
      ground (
        arith,
        test_bit-set_bit (a.window (delta / 8)) (delta % 8) (other % 8) (v.bytes _),
        ap a.window same,
      )
  | inr e ↦ ground arith
]

received-mark :
    (a : AckPayload) (seq other : ℕ)
    → IsAck a
    → IsU32 seq
    → IsU32 other
    → InWindow a seq
    → received (mark a (offset a seq)) other ≡ (if other == seq then true else received a other)
unfolding received
received-mark a seq other v fits k w =
    let place = offset_lem a seq (omega (arith, v.hsn_fits)) fits w.0 in
    elim (Bool-cases (leb other a.hsn)) [
      | inl below ↦ rw (below) (ground arith)
      | inr past ↦
          let place' = offset_lem a other (omega (arith, v.hsn_fits)) k (ground arith) in
          elim (Bool-cases (leb 256 (offset a other))) [
            | inl beyond ↦ rw (past, beyond) (ground (arith, place, place'))
            | inr within ↦
                rw (past, within)
                  (mark_bit a (offset a seq) (offset a other) (omega (arith, place)) (ground arith)
                      v
                    ∙ ap
                        (λ (t : Bool).
                          if t
                          then true
                          else test_bit (a.window (offset a other / 8)) (offset a other % 8))
                        (ground (arith, place, place')))
          ]
    ]

-- On a well-formed payload, marking a block of the window, which is a uint32_t, returns. It keeps
-- the payload well formed, and adds that block and no other to the blocks that the payload reports
-- as received.
pub block_received-set_block_received :
    (a : AckPayload) (seq : ℕ)
    → IsAck a
    → IsU32 seq
    → InWindow a seq
    → (b : AckPayload) × (set_block_received a seq ≡ returns b)
      × IsAck b
      × ((other : ℕ)
          → IsU32 other
          → received b other ≡ (if other == seq then true else received a other))
unfolding set_block_received
block_received-set_block_received a seq v fits w =
    let place = offset_lem a seq (omega (arith, v.hsn_fits)) fits w.0 in
    (
      mark a (offset a seq),
      ground (arith, v.hsn_fits, place),
      mark-IsAck a (offset a seq) (omega (arith, place)) v,
      λ other k. received-mark a seq other v fits k w,
    )
