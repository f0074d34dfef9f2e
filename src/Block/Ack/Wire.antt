-- ===== src/Block/Ack/Wire.antt =====
-- An `ack_payload` on the wire: `serialize` against the decoding constructor.
use stegotorus.Common.{
  ℕ, zero, suc, ◌+◌, ◌≤◌, ◌<◌, ◌≡◌, refl, sym, ap, fun_ext, ◌∙◌, ◌⊎◌, inl, inr, arith, true, false,
  Bool-cases, [], ◌∷◌, leb, test_bit, some, IsByte, IsU32, byte_at, be32, be32_bytes, add32,
  minus_one, length, get_or, slice, take, drop, length-slice, length-take, ◌==◌, get_or-slice,
  get_or_beyond, take_all, drop_all, returns, All, dec_lt,
}
use stegotorus.Common.Evbuffer.{Bytes, Evbuffer, IsReliable}
use stegotorus.Block.Ack.{
  AckPayload, valid, offset, block_received, check_range, read_window, decode, serialize,
  out_of_range, invalidate, ack_payload,
}
use stegotorus.Block.Ack.Marks.{IsAck}

-- The receiver of a payload expects its number to lie in this range, and the first bit to be clear.
pub record IsExpected (a : AckPayload) (hfloor : ℕ) : Type 0 where
  pub floor : hfloor ≤ a.hsn + 1
  pub ceiling : a.hsn < add32 hfloor 256
  pub first_clear : test_bit (a.window 0) 0 ≡ false

wire_of : AckPayload → Bytes
wire_of a =
    byte_at a.hsn 24
    ∷ byte_at a.hsn 16
    ∷ byte_at a.hsn 8
    ∷ byte_at a.hsn 0
    ∷ slice a.window 0 a.maxusedbyte

window_back :
    (a : AckPayload) → IsAck a → (λ i. get_or (slice a.window 0 a.maxusedbyte) i 0) ≡ a.window
window_back a v = fun_ext λ i. elim (dec_lt i a.maxusedbyte) [
  | yes l ↦ get_or-slice a.window 0 a.maxusedbyte i 0 l ∙ ap a.window (omega arith)
  | no l ↦
      get_or_beyond (slice a.window 0 a.maxusedbyte) i 0
        (omega (arith, length-slice a.window 0 a.maxusedbyte))
      ∙ sym (v.clear_above i (omega arith))
]

-- The first block past `hsn` has the lowest bit.
first_block :
    (a : AckPayload)
    → a.hsn < minus_one
    → block_received a (add32 a.hsn 1) ≡ returns (test_bit (a.window 0) 0)
unfolding block_received
first_block a h =
    let zeroth : offset a (add32 a.hsn 1) ≡ 0 = omega arith in
    let past : leb (add32 a.hsn 1) a.hsn ≡ false = ground arith in
    let is_valid : valid a ≡ true = ground arith in rw (is_valid, past, zeroth)

-- A payload in the expected range passes the constructor's test.
check_range_expected :
    (a : AckPayload) (hfloor : ℕ)
    → IsAck a
    → IsU32 hfloor
    → IsExpected a hfloor
    → check_range a hfloor [] ≡ returns a
check_range_expected a hfloor v fits x =
    ground (arith, first_block a v.hsn_fits, x.first_clear, x.floor, x.ceiling)

-- What a decoded payload is: marked as invalid, or well formed and in the expected range.
abbrev pub Decoded : ℕ → AckPayload → Type 0
Decoded hfloor b = (b.hsn ≡ minus_one) ⊎ (IsAck b × IsExpected b hfloor)

-- The contents of `window` after the read: the bytes on the wire, and zeros.
window_of : Bytes → ℕ → ℕ
window_of bits i = get_or bits i 0

window_of-lt : (bits : Bytes) (i : ℕ) → All IsByte bits → window_of bits i < 256
unfolding window_of
window_of-lt [] i h = omega arith
window_of-lt (b ∷ bits) zero h = h.0
window_of-lt (b ∷ bits) (suc i) h = window_of-lt bits i h.1

take-All : (n : ℕ) (bits : Bytes) → All IsByte bits → All IsByte (take n bits)
take-All zero bits h = tt
take-All (suc n) [] h = tt
take-All (suc n) (b ∷ bits) h = (h.0, take-All n bits h.1)

drop-All : (n : ℕ) (bits : Bytes) → All IsByte bits → All IsByte (drop n bits)
drop-All zero bits h = h
drop-All (suc n) [] h = tt
drop-All (suc n) (b ∷ bits) h = drop-All n bits h.1

check_range-Decoded :
    (hsn hfloor : ℕ) (bits rest : Bytes)
    → IsU32 hfloor
    → length bits ≤ 32
    → All IsByte bits
    → let a : AckPayload = record {
      hsn = hsn;
      maxusedbyte = length bits;
      window = λ i. get_or bits i 0;
    } in
      (b : AckPayload) × (check_range a hfloor rest ≡ returns b) × Decoded hfloor b
unfolding window_of
check_range-Decoded hsn hfloor bits rest fits short bytes =
    elim (Bool-cases (out_of_range a hfloor rest)) [
      | inl out ↦ (invalidate a, rw out, inl refl)
      | inr within ↦
          let small : hsn < minus_one = ground arith in
          let v : IsAck a = record {
            hsn_fits = small;
            used_fits = short;
            bytes = λ i. window_of-lt bits i bytes;
            clear_above = λ i h. get_or_beyond bits i 0 h;
          } in
          elim (Bool-cases (test_bit (a.window 0) 0)) [
            | inl first ↦ (invalidate a, rw (within, first_block a small, first), inl refl)
            | inr first ↦ (
              a,
              rw (within, first_block a small, first),
              inr (v, record { floor = ground arith; ceiling = ground arith; first_clear = first }),
            )
          ]
    ]
  where
    a : AckPayload
    a = record { hsn = hsn; maxusedbyte = length bits; window = λ i. get_or bits i 0 }

module _ (ev : Evbuffer) (laws : IsReliable ev) where
  serialize_lem : (a : AckPayload) → IsAck a → serialize ev a ≡ returns (some (wire_of a))
  unfolding serialize wire_of
  serialize_lem a v = ground (arith, v.hsn_fits, laws.add_lem [] (wire_of a))

  read_window-slice :
      (a : AckPayload) (hfloor : ℕ)
      → IsAck a
      → read_window ev a.hsn hfloor (slice a.window 0 a.maxusedbyte) ≡ check_range a hfloor []
  read_window-slice a hfloor v =
      let long = length-slice a.window 0 a.maxusedbyte in
      let short : length (slice a.window 0 a.maxusedbyte) ≤ 32 = omega (arith, long, v.used_fits) in
      rw
        (
          laws.remove_lem (slice a.window 0 a.maxusedbyte) 32,
          read_window,
          take_all 32 _ short,
          drop_all 32 _ short,
          window_back a v,
          long,
        )
        refl

  -- Where no call of libevent fails, a well-formed payload whose number lies between `hfloor - 1`
  -- and `hfloor + 255` (below `hfloor + 256` as a uint32_t) and whose lowest bit is clear is
  -- serialized, and read back from that wire format as it was: its number, its length and every
  -- byte of its window.
  pub decode-serialize :
      (a : AckPayload) (hfloor : ℕ)
      → IsAck a
      → IsU32 hfloor
      → IsExpected a hfloor
      → (wire : Bytes) × (serialize ev a ≡ returns (some wire))
        × (decode ev wire hfloor ≡ returns a)
  unfolding decode wire_of
  decode-serialize a hfloor v fits x = (wire_of a, serialize_lem a v, decode_wire)
    where
      decode_wire : decode ev (wire_of a) hfloor ≡ returns a
      decode_wire =
          rw (laws.remove_lem (wire_of a) 4, decode, be32_bytes a.hsn (omega (arith, v.hsn_fits)))
            (read_window-slice a hfloor v ∙ check_range_expected a hfloor v fits x)

  -- Where no call of libevent fails, the decoding constructor returns on every wire of bytes and
  -- for every uint32_t `hfloor`: with a payload marked as invalid, or with one that is well
  -- formed, has a number between `hfloor - 1` and `hfloor + 255` (below `hfloor + 256` as a
  -- uint32_t) and a clear lowest bit.
  pub decode-Decoded :
      (wire : Bytes) (hfloor : ℕ)
      → All IsByte wire
      → IsU32 hfloor
      → (b : AckPayload) × (decode ev wire hfloor ≡ returns b) × Decoded hfloor b
  unfolding decode ack_payload
  decode-Decoded wire hfloor bytes fits = elim (Bool-cases (length (take 4 wire) == 4)) [
    | inl long ↦
        let (b, e, d) =
          check_range-Decoded
            (be32 (get_or (take 4 wire) 0 0) (get_or (take 4 wire) 1 0) (get_or (take 4 wire) 2 0)
              (get_or (take 4 wire) 3 0))
            hfloor (take 32 (drop 4 wire)) (drop 32 (drop 4 wire)) fits
            (omega (arith, length-take 32 (drop 4 wire)))
            (take-All 32 (drop 4 wire) (drop-All 4 wire bytes)) in
        (
          b,
          rw (laws.remove_lem wire 4, decode, long, laws.remove_lem (drop 4 wire) 32, read_window)
              e,
          d,
        )
    | inr short ↦ (ack_payload minus_one, rw (laws.remove_lem wire 4, decode, short), inl refl)
  ]
