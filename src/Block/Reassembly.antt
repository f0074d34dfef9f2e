-- ===== src/Block/Reassembly.antt =====
-- `class reassembly_queue` of src/protocol/chop_blk.h and src/protocol/chop_blk.cc. `D` is what a block's
-- evbuffer holds and `C` a steganography module's configuration; the queue only moves both. The
-- circular buffer is a function of the index, which every access takes modulo 256.
pub mod Stream
pub mod Order
pub mod Acks
use stegotorus.Common.{
  ℕ, zero, suc, ◌+◌, ◌-◌, ◌%◌, ◌^◌, Bool, true, false, not, ltb, ◌==◌, if◌then◌else◌, Option, none,
  some, is_some, add32, sub32, update, Outcome, returns, aborts, log_assert, ◌>>=◌, ◌>>◌,
}
use stegotorus.Common.Evbuffer.{Bytes, Evbuffer}
use stegotorus.Block.Opcode
use stegotorus.Block.Ack.{AckPayload, ack_payload, set_block_received, serialize}

pub record ReassemblyElt (D C : Type 0) : Type 0 where
  pub contents : Option D
  pub op : ℕ
  pub steg_cfg : Option C
  pub do_ack : Bool

pub record ReassemblyQueue (D C : Type 0) : Type 0 where
  pub cbuf : ℕ → ReassemblyElt D C
  pub next_to_process : ℕ
  pub count : ℕ

-- The sequence number that the loop of `gen_ack` computes for an element: `pos - front` is an int,
-- which is negative where the buffer has gone round, and is added to a uint32_t.
abbrev pub seq_at : ℕ → ℕ → ℕ
seq_at next pos = (next + pos + 2 ^ 32 - next % 256) % 2 ^ 32

module _ {D C : Type 0} where
  -- The constructor: `memset` clears every element.
  unfoldable pub reassembly_queue : ReassemblyQueue D C
  reassembly_queue = record {
    cbuf = λ _. record { contents = none; op = Opcode.xxx; steg_cfg = none; do_ack = false };
    next_to_process = 0;
    count = 0;
  }

  abbrev pub window : ReassemblyQueue D C → ℕ
  window q = q.next_to_process

  abbrev pub front : ReassemblyQueue D C → ℕ
  front q = q.next_to_process % 256

  unfoldable pub is_empty : ReassemblyQueue D C → Bool
  is_empty q = q.count == 0

  -- What `remove_next` returns where the next block has not come.
  abbrev pub no_block : ReassemblyElt D C
  no_block = record { contents = none; op = Opcode.dat; steg_cfg = none; do_ack = false }

  -- The element behind a block that was removed.
  abbrev pub vacated : ReassemblyElt D C
  vacated = record { contents = none; op = Opcode.dat; steg_cfg = none; do_ack = true }

  unfoldable pub remove_next : ReassemblyQueue D C → ReassemblyElt D C × ReassemblyQueue D C
  remove_next q =
      if is_some (q.cbuf (front q)).contents
      then (
        q.cbuf (front q),
        record {
          cbuf = update q.cbuf (front q) vacated;
          next_to_process = add32 q.next_to_process 1;
          count = sub32 q.count 1;
        },
      )
      else (no_block, q)

  -- `pos`, a uint8_t
  abbrev pub position : ReassemblyQueue D C → ℕ → ℕ
  position q seqno = (front q + sub32 seqno (window q)) % 256

  unfoldable pub insert : ReassemblyQueue D C → ℕ → ℕ → D → Option C → Bool × ReassemblyQueue D C
  insert q seqno op block steg_cfg =
      if ltb 255 (sub32 seqno (window q))
      then (false, q)
      else if is_some (q.cbuf (position q seqno)).contents
      then (false, q)
      else (
        true,
        record q {
          cbuf = update q.cbuf (position q seqno) (record (q.cbuf (position q seqno)) {
            contents = some block;
            op = op;
            steg_cfg = steg_cfg;
          });
          count = add32 q.count 1;
        },
      )

  -- The loop of `reset` over the elements from `i` on, `n` of them.
  abbrev pub assert_clear : (ℕ → ReassemblyElt D C) → ℕ → ℕ → Outcome (Unit {0})
  assert_clear cbuf i zero = returns tt
  assert_clear cbuf i (suc n) =
      log_assert (not (is_some (cbuf i).contents)) >> assert_clear cbuf (suc i) n

  unfoldable pub reset : ReassemblyQueue D C → Outcome (ReassemblyQueue D C)
  reset q = do
    log_assert (q.count == 0)
    assert_clear q.cbuf 0 256
    returns (record q { next_to_process = 0 })

  -- The body of that loop: the payload, and the queue with `do_ack` cleared.
  unfoldable pub ack_slot :
      AckPayload → ReassemblyQueue D C → ℕ → Outcome (AckPayload × ReassemblyQueue D C)
  ack_slot payload q pos =
      if is_some (q.cbuf pos).contents
      then (set_block_received payload (seq_at q.next_to_process pos) >>= λ payload'. returns (
        payload',
        record q { cbuf = update q.cbuf pos (record (q.cbuf pos) { do_ack = false }) },
      ))
      else returns (payload, q)

  -- `do … while (pos != front)`, with `pos` of eight bits. The first argument bounds the rounds.
  unfoldable pub ack_loop :
      ℕ → ℕ → AckPayload → ReassemblyQueue D C → Outcome (AckPayload × ReassemblyQueue D C)
  ack_loop zero pos payload q = aborts
  ack_loop (suc rounds) pos payload q = elim (ack_slot payload q pos) [
    | aborts ↦ aborts
    | returns (payload', q') ↦
        let rest = ack_loop rounds ((pos + 1) % 256) payload' q' in
        if (pos + 1) % 256 == front q then returns (payload', q') else rest
  ]

  -- The payload of `gen_ack`. After 256 rounds `pos` is back at `front`.
  unfoldable pub gen_ack_payload : ReassemblyQueue D C → Outcome (AckPayload × ReassemblyQueue D C)
  gen_ack_payload q =
      ack_loop 256 (front q)
        (ack_payload (if q.next_to_process == 0 then 0 else q.next_to_process - 1)) q

  -- `gen_ack`
  unfoldable pub gen_ack :
      Evbuffer → ReassemblyQueue D C → Outcome (Option Bytes × ReassemblyQueue D C)
  gen_ack ev q = do
    (payload, q') ← gen_ack_payload q
    wire ← serialize ev payload
    returns (wire, q')
