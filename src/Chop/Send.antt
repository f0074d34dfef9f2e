-- ===== src/Chop/Send.antt =====
-- The sending of a block in src/protocol/chop.cc: its sizes, and its way through the transmit queue to
-- a connection. Counters for the log and the trace are left out, and so is the memory that
-- `evbuffer_new` may fail to get.
pub mod Sizes
pub mod Sent
pub mod Loop
pub mod Ends
use stegotorus.Common.{
  ℕ, ◌+◌, ◌-◌, ◌%◌, ◌^◌, Bool, true, false, not, ◌||◌, ◌&&◌, ltb, leb, ◌==◌, if◌then◌else◌, Option,
  none, some, List, [], ◌∷◌, length, Outcome, returns, aborts, log_assert, ◌>>=◌, ◌>>◌,
}
use stegotorus.Common.Evbuffer.{Bytes, Evbuffer}
use stegotorus.Block.Opcode
use stegotorus.Block.Header.{BlockCipher}
use stegotorus.Block.Transmit.{GcmEncryptor, TransmitQueue, full, enqueue, transmit}
use stegotorus.Chop.{ChopConn, shake, section_len, min_block_size, max_block_size}
use stegotorus.Chop.Pick.{pick_connection}

-- The members of a `chop_circuit_t` that the sending of a block reads or writes.
pub record ChopCircuit : Type 0 where
  pub tx_queue : TransmitQueue
  pub dead_cycles : ℕ
  pub sent_fin : Bool
  pub upstream_eof : Bool
  pub read_eof : Bool

-- What a call returns, with 0 as true, the circuit, what is left of the payload's buffer, and the
-- block that was given to the connection.
pub record Sending : Type 0 where
  pub ok : Bool
  pub circuit : ChopCircuit
  pub left : Bytes
  pub block : Option Bytes

abbrev pub failed : ChopCircuit → Bytes → Option Bytes → Sending
failed c left block = record { ok = false; circuit = c; left = left; block = block }

abbrev pub is_fin : ℕ → Bool
is_fin f = f == Opcode.fin || f == Opcode.steg_fin

-- The end of `send_targeted`, when the block is out.
abbrev pub note_sent : ChopCircuit → ℕ → ℕ → ChopCircuit
note_sent c d f = record c {
  sent_fin = if is_fin f then true else c.sent_fin;
  read_eof = if is_fin f then true else c.read_eof;
  dead_cycles =
      if ((f == Opcode.dat && ltb 0 d) || (f == Opcode.steg0 && ltb 0 d) || is_fin f)
      then 0
      else c.dead_cycles;
}

-- The same of `send_special`.
abbrev pub note_special : ChopCircuit → ℕ → ℕ → ChopCircuit
note_special c d f = record c {
  sent_fin = if f == Opcode.fin then true else c.sent_fin;
  read_eof = if f == Opcode.fin then true else c.read_eof;
  dead_cycles = if (f == Opcode.dat && ltb 0 d) || f == Opcode.fin then 0 else c.dead_cycles;
}

-- The data of a block in `room` bytes behind the smallest block, and whether the last byte is in it.
abbrev pub split_block : ℕ → ℕ → Bool → ℕ × Bool
split_block room avail eof =
    if ltb room avail || ltb section_len avail
    then (if ltb room section_len then room else section_len, false)
    else (avail, eof)

-- The request for room in `send_targeted(conn)`, behind its retransmission: the size of the block.
unfoldable pub request_room : ChopConn → ℕ → Outcome ℕ
request_room conn avail =
    let data_len = (if ltb section_len avail then section_len else avail) in
    let lo = min_block_size + (if data_len == 0 then 0 else 1) + shake conn in
    let hi = max_block_size + shake conn in
    let room = conn.room (data_len + min_block_size + shake conn) lo hi in
    if room == 0 then aborts else if ltb room lo || leb hi room then aborts else returns room

-- The calls of `conn->send`, which succeed or not, are the argument `deliver`.
module _ (ev : Evbuffer) (ec : BlockCipher) (gc : GcmEncryptor) (deliver : Bytes → Bool) where
  -- From `transmit` on; `c` has the block in its queue.
  unfoldable pub transmit_to :
      (ChopCircuit → ChopCircuit) → ChopCircuit → ℕ → Bytes → Outcome Sending
  transmit_to note c seqno left = transmit ev ec gc c.tx_queue seqno [] >>= λ sent. elim sent [
    | none ↦ returns (failed c left none)
    | some block ↦ returns (
        if deliver block
        then record { ok = true; circuit = note c; left = left; block = some block }
        else failed c left (some block))
  ]

  -- `send_targeted` with sizes, opcode and payload.
  unfoldable pub send_block_to : ChopCircuit → ℕ → ℕ → ℕ → Bytes → Outcome Sending
  send_block_to c d p f payload =
      log_assert (leb d section_len)
      >> log_assert (leb p section_len)
      >> (if full c.tx_queue then returns (failed c payload none) else elim (ev.remove payload d) [
        | none ↦ returns (failed c payload none)
        | some (contents, left) ↦
            (if not (length contents == d)
              then returns (failed c left none)
              else enqueue c.tx_queue f contents p >>= λ e.
                  transmit_to (λ c'. note_sent c' d f) (record c { tx_queue = e.1 }) e.0 left)
      ])

  -- `send_targeted` and `send_targeted_steg_data` of a size: the opcodes are those for data and for the
  -- last data.
  unfoldable pub send_sized : ℕ → ℕ → ChopConn → ℕ → Bytes → ChopCircuit → Outcome Sending
  send_sized op op_last conn blocksize payload c =
      let lo = min_block_size + shake conn in
      log_assert (leb lo blocksize && leb blocksize (max_block_size + shake conn))
      >> (let (d, last) =
            split_block (blocksize - lo) (length payload) (c.upstream_eof && not c.sent_fin) in
          send_block_to c d (blocksize - lo - d) (if last then op_last else op) payload)

  abbrev pub send_targeted : ChopConn → ℕ → Bytes → ChopCircuit → Outcome Sending
  send_targeted = send_sized Opcode.dat Opcode.fin

  abbrev pub send_targeted_steg_data : ChopConn → ℕ → Bytes → ChopCircuit → Outcome Sending
  send_targeted_steg_data = send_sized Opcode.steg0 Opcode.steg_fin

  -- Behind `pick_connection` in `send_special`: the padding, and whether there is a connection.
  abbrev pub special_padding : ℕ → Option ℕ × ℕ → ℕ × Bool
  special_padding d (none, blocksize) = (0, false)
  special_padding d (some conn, blocksize) =
      if ltb blocksize (min_block_size + d)
      then (0, false)
      else (blocksize - (d + min_block_size), true)

  -- The padding becomes a `uint16_t` on its way to `enqueue`.
  unfoldable pub send_special : List ChopConn → ℕ → Bytes → ChopCircuit → Outcome Sending
  send_special conns f payload c =
      let d = length payload in
      log_assert (leb d section_len)
      >> (if full c.tx_queue
          then returns (failed c payload none)
          else pick_connection d d conns >>= λ picked.
              enqueue c.tx_queue f payload ((special_padding d picked).0 % 2 ^ 16) >>= λ e.
              (let c' : ChopCircuit = record c { tx_queue = e.1 } in
                if (special_padding d picked).1
                then transmit_to (λ c. note_special c d f) c' e.0 []
                else returns (record { ok = true; circuit = c'; left = []; block = none })))
