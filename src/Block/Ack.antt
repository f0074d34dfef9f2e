-- ===== src/Block/Ack.antt =====
-- `class ack_payload` of src/protocol/chop_blk.h and src/protocol/chop_blk.cc: the number of the highest
-- block processed, and a bit for each of the 256 blocks that follow.
pub mod Marks
pub mod Wire
use stegotorus.Common.{
  ℕ, ◌+◌, ◌/◌, ◌%◌, ◌^◌, bit_or, Bool, true, false, not, ◌&&◌, ◌||◌, [], ◌∷◌, leb, ltb, ◌==◌,
  if◌then◌else◌, test_bit, Option, none, some, byte_at, be32, add32, sub32, minus_one, get_or,
  length, slice, update, Outcome, returns, aborts, log_assert, ◌>>=◌, ◌>>◌,
}
use stegotorus.Common.Evbuffer.{Bytes, Evbuffer}

pub record AckPayload : Type 0 where
  pub hsn : ℕ
  pub maxusedbyte : ℕ
  pub window : ℕ → ℕ

-- The constructor from a sequence number. `memset` clears the window.
unfoldable pub ack_payload : ℕ → AckPayload
ack_payload h = record { hsn = h; maxusedbyte = 0; window = λ _. 0 }

abbrev pub valid : AckPayload → Bool
valid a = not (a.hsn == minus_one)

-- The place of a block in the window, `(seq - hsn_) - 1`.
abbrev pub offset : AckPayload → ℕ → ℕ
offset a seq = sub32 (sub32 seq a.hsn) 1

-- `hsn` is both the member's name and the accessor's; this is the accessor.
unfoldable pub get_hsn : AckPayload → Outcome ℕ
get_hsn a = do log_assert (valid a); returns a.hsn

unfoldable pub set_hsn : AckPayload → ℕ → Outcome AckPayload
set_hsn a h = do log_assert (valid a && not (h == minus_one)); returns (record a { hsn = h })

-- The body of `block_received` behind its assertion.
unfoldable pub received : AckPayload → ℕ → Bool
received a seq =
    if leb seq a.hsn
    then true
    else if leb 256 (offset a seq)
    then false
    else test_bit (a.window (offset a seq / 8)) (offset a seq % 8)

unfoldable pub block_received : AckPayload → ℕ → Outcome Bool
unfolding received
block_received a seq = do log_assert (valid a); returns (received a seq)

-- The write of `set_block_received` to the window, at the place `delta`.
abbrev pub mark : AckPayload → ℕ → AckPayload
mark a delta = record a {
  window = update a.window (delta / 8) (bit_or (a.window (delta / 8)) (2 ^ (delta % 8)));
  maxusedbyte = if ltb a.maxusedbyte (delta / 8 + 1) then delta / 8 + 1 else a.maxusedbyte;
}

unfoldable pub set_block_received : AckPayload → ℕ → Outcome AckPayload
set_block_received a seq = do
  log_assert (valid a)
  if leb 256 (offset a seq) then aborts else returns (mark a (offset a seq))

-- `hsn_ = -1`: the payload is invalid.
abbrev pub invalidate : AckPayload → AckPayload
invalidate a = record a { hsn = minus_one }

-- More data than the window, or a number outside [hfloor - 1, hfloor + 256).
abbrev pub out_of_range : AckPayload → ℕ → Bytes → Bool
out_of_range a hfloor wire =
    ltb 0 (length wire)
    || (leb 1 hfloor && ltb a.hsn (sub32 hfloor 1))
    || leb (add32 hfloor 256) a.hsn

-- The last test of the decoding constructor. `block_received` is only called where the tests before
-- it fail.
abbrev pub check_range : AckPayload → ℕ → Bytes → Outcome AckPayload
check_range a hfloor wire =
    if out_of_range a hfloor wire
    then returns (invalidate a)
    else do first ← block_received a (add32 a.hsn 1); returns (if first then invalidate a else a)

module _ (ev : Evbuffer) where
  -- `evbuffer_remove(wire, window, 32)` fills the front of the cleared window. Its result goes to
  -- `maxusedbyte`, where a failure is uint32_t(-1).
  abbrev pub read_window : ℕ → ℕ → Bytes → Outcome AckPayload
  read_window hsn hfloor wire = elim (ev.remove wire 32) [
    | none ↦
        check_range (record { hsn = hsn; maxusedbyte = minus_one; window = λ _. 0 }) hfloor wire
    | some (bits, rest) ↦
        check_range (record { hsn = hsn; maxusedbyte = length bits; window = λ i. get_or bits i 0 })
          hfloor rest
  ]

  -- The decoding constructor. A payload of fewer than four bytes stays invalid.
  unfoldable pub decode : Bytes → ℕ → Outcome AckPayload
  decode wire hfloor = elim (ev.remove wire 4) [
    | none ↦ returns (ack_payload minus_one)
    | some (hsnwire, rest) ↦
        if length hsnwire == 4
        then read_window
            (be32 (get_or hsnwire 0 0) (get_or hsnwire 1 0) (get_or hsnwire 2 0)
              (get_or hsnwire 3 0))
            hfloor rest
        else returns (ack_payload minus_one)
  ]

  -- `serialize`, with the buffer that it returns (`none` is its null pointer).
  unfoldable pub serialize : AckPayload → Outcome (Option Bytes)
  serialize a = do
    log_assert (valid a)
    returns (
        ev.add [] (
          byte_at a.hsn 24
          ∷ byte_at a.hsn 16
          ∷ byte_at a.hsn 8
          ∷ byte_at a.hsn 0
          ∷ slice a.window 0 a.maxusedbyte))
