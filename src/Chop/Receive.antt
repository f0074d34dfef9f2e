-- ===== src/Chop/Receive.antt =====
-- The receiving side of a circuit in src/protocol/chop.cc: `recv_block` and `process_queue`. Its calls of
-- `send_special` and `retransmit` are those of Chop.Send and Chop.Retransmit; `send` as a whole and the
-- steganography modules are arguments. They change the members of the sending side.
pub mod Drain
pub mod Settle
pub mod Deliver
use stegotorus.Common.{
  ℕ, zero, suc, ◌+◌, Bool, true, false, not, ◌||◌, ◌&&◌, ltb, ◌==◌, if◌then◌else◌, Option, none,
  some, List, [], ◌∷◌, ◌++◌, length, Outcome, returns, aborts, ◌>>=◌,
}
use stegotorus.Common.Evbuffer.{Bytes, Evbuffer}
use stegotorus.Block.Opcode
use stegotorus.Block.Header.{BlockCipher}
use stegotorus.Block.Transmit.{GcmEncryptor, process_ack}
use stegotorus.Chop.{ChopConn}
use stegotorus.Chop.Retransmit
use stegotorus.Chop.Send.{ChopCircuit, send_special}
use stegotorus.Block.Reassembly.{ReassemblyElt, ReassemblyQueue, remove_next, insert}

-- What the receiving side calls. `C` is a steganography module's configuration, `offers` the connections
-- at the time of a call, and `deliver` whether they take a block.
pub record Sender (C : Type 0) : Type 0 where
  pub ec : BlockCipher
  pub gc : GcmEncryptor
  pub deliver : Bytes → Bool
  pub offers : ChopCircuit → List ChopConn
  pub send : ChopCircuit → Outcome ChopCircuit
  pub process_protocol_data : Option C → Bytes → ChopCircuit → Outcome ChopCircuit

-- The members that the receiving side uses, with those of the sending side; `output` is the output of the upstream buffer.
pub record Receiver (C : Type 0) : Type 0 where
  pub recv_queue : ReassemblyQueue Bytes C
  pub circuit : ChopCircuit
  pub received_fin : Bool
  pub write_eof : Bool
  pub output : Bytes

-- The local variables of `process_queue`: `pending_fin`, `pending_error` and `sent_error`.
pub record Flags : Type 0 where
  pub pending_fin : Bool
  pub pending_error : Bool
  pub sent_error : Bool

abbrev pub no_flags : Flags
no_flags = record { pending_fin = false; pending_error = false; sent_error = false }

abbrev pub Turn : Type 0 → Type 0
Turn C = Receiver C × Flags

module _ {C : Type 0} where
  -- The code behind the label `insert`.
  abbrev pub put : Receiver C → ℕ → ℕ → Bytes → Option C → Receiver C
  put r seqno op block cfg = record r { recv_queue = (insert r.recv_queue seqno op block cfg).1 }

module _ {C : Type 0} (ev : Evbuffer) (closes : Bytes → Bool) (sender : Sender C) where
  -- `circuit_recv_eof` of the connection layer: it may shut the upstream down at once, which `closes`
  -- tells from what is in the output.
  abbrev pub end_output : Receiver C → Receiver C
  end_output r = record r { write_eof = if closes r.output then true else r.write_eof }

  -- `send_special(op_RST, 0)`; its result is not looked at.
  unfoldable pub send_rst : Receiver C → Outcome (Receiver C)
  send_rst r =
      send_special ev sender.ec sender.gc sender.deliver (sender.offers r.circuit) Opcode.rst []
        r.circuit
      >>= λ x. returns (record r { circuit = x.circuit })

  -- `retransmit()`, the same.
  unfoldable pub resend : Receiver C → Outcome (Receiver C)
  resend r =
      Retransmit.retransmit ev sender.ec sender.gc sender.deliver (sender.offers r.circuit)
        r.circuit.tx_queue
      >>= λ x. returns (record r { circuit = record r.circuit { tx_queue = x.queue } })

  -- The `switch` of `recv_block`; at the label `zap` an empty block takes the place.
  unfoldable pub recv_block : Receiver C → ℕ → ℕ → Bytes → Option C → Outcome (Receiver C)
  recv_block r seqno op block cfg =
      if op == Opcode.dat || op == Opcode.fin || op == Opcode.steg0 || op == Opcode.steg_fin
      then returns (put r seqno op block cfg)
      else if op == Opcode.rst
      then returns (put (end_output r) seqno Opcode.dat [] cfg)
      else if op == Opcode.ack
      then (process_ack ev r.circuit.tx_queue block >>= λ a.
          resend (record r { circuit = record r.circuit { tx_queue = a.1 } }) >>= λ r'.
          returns (put r' seqno Opcode.dat [] cfg))
      else returns (put r seqno Opcode.dat [] cfg)

  -- Data are forward progress.
  abbrev pub moving : Receiver C → Receiver C
  moving r = record r { circuit = record r.circuit { dead_cycles = 0 } }

  -- The code behind `case op_DAT`.
  unfoldable pub data_case : Receiver C → Flags → Bytes → Outcome (Turn C)
  data_case r fl [] = returns (r, fl)
  data_case r fl (b ∷ bs) =
      if r.received_fin
      then returns (r, record fl { pending_error = true })
      else if r.write_eof
      then aborts
      else elim (ev.add r.output (b ∷ bs)) [
        | none ↦ returns (moving r, record fl { pending_error = true })
        | some longer ↦ returns (record (moving r) { output = longer }, fl)
      ]

  -- The code behind `case op_STEG0`: the module gets the data, and what it has to say is sent.
  unfoldable pub steg_case : Receiver C → Flags → Bytes → Option C → Outcome (Turn C)
  steg_case r fl block cfg = sender.process_protocol_data cfg block r.circuit >>= λ c.
      sender.send c >>= λ c'. returns (record r { circuit = c' }, fl)

  -- The `switch` of `process_queue`.
  unfoldable pub block_case : Receiver C → Flags → ℕ → Bytes → Option C → Outcome (Turn C)
  unfolding data_case steg_case
  block_case r fl op block cfg =
      if op == Opcode.fin
      then (if r.received_fin
          then returns (r, record fl { pending_error = true })
          else data_case r (record fl { pending_fin = true }) block)
      else if op == Opcode.dat
      then data_case r fl block
      else if op == Opcode.steg_fin
      then (if r.received_fin
          then returns (r, record fl { pending_error = true })
          else steg_case r (record fl { pending_fin = true }) block cfg)
      else if op == Opcode.steg0
      then steg_case r fl block cfg
      else aborts

  -- Behind the `switch`: the end of the stream, and the first error.
  unfoldable pub settle_fin : Turn C → Turn C
  settle_fin (r, fl) =
      if fl.pending_fin && not r.received_fin
      then (record (end_output r) { received_fin = true }, fl)
      else (r, fl)

  unfoldable pub settle_error : ℕ → Turn C → Outcome (Turn C)
  settle_error op (r, fl) =
      if fl.pending_error && not fl.sent_error
      then (if op == Opcode.rst || op == Opcode.fin || op == Opcode.steg_fin
          then returns (r, record fl { sent_error = true })
          else send_rst r >>= λ r'. returns (r', record fl { sent_error = true }))
      else returns (r, fl)

  unfoldable pub process_block : Receiver C → Flags → ℕ → Bytes → Option C → Outcome (Turn C)
  unfolding block_case settle_fin settle_error
  process_block r fl op block cfg =
      block_case r fl op block cfg >>= λ t. settle_error op (settle_fin t)

  -- The `while` loop. Its first argument bounds the rounds.
  unfoldable pub process_loop : ℕ → Receiver C → Flags → Outcome (Turn C)
  process_loop zero r fl = aborts
  process_loop (suc rounds) r fl =
      let (blk, q) = remove_next r.recv_queue in
      elim blk.contents [
        | none ↦ returns (r, fl)
        | some block ↦
            process_block (record r { recv_queue = q }) fl blk.op block blk.steg_cfg >>= λ t.
            process_loop rounds t.0 t.1
      ]

  -- `process_queue`, up to its test of `sent_error`, which the Boolean is.
  unfoldable pub process_queue : Receiver C → Outcome (Bool × Receiver C)
  process_queue r = process_loop 257 r no_flags >>= λ t. returns (t.1.sent_error, t.0)
