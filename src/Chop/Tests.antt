-- ===== src/Chop/Tests.antt =====
-- Runs of a circuit (src/protocol/chop.cc) at concrete inputs.
use stegotorus.Common.{
  ℕ, ◌+◌, ◌*◌, ◌<◌, ◌≤◌, ◌≡◌, inl, inr, refl, arith, Bool, true, false, ◌&&◌, if◌then◌else◌, none,
  some, [], ◌∷◌, ◌++◌, length-append, returns, aborts, Ensures, List, ◌==◌, ltb, Bool-cases, leb,
  Option,
}
use stegotorus.Common.Evbuffer.{Bytes, plain, plain-IsReliable}
use stegotorus.Block.Header.{BlockCipher, invalid}
use stegotorus.Block.Transmit.{TransmitQueue, GcmEncryptor, full}
use stegotorus.Block.Transmit.Discard.{IsWindow}
use stegotorus.Chop.{ChopConn, section_len, max_block_size}
use stegotorus.Chop.Timers.{flush_interval, axe_interval, axe-flush_bounds}
use stegotorus.Chop.Pick.{pick_connection, whole_desired, whole_minimum}
use stegotorus.Chop.Pick.Best.{IsBest, pick_connection-IsBest}
use stegotorus.Chop.Send.{ChopCircuit, send_sized, send_special}
use stegotorus.Chop.Send.Sizes.{send_sized_aborts}
use stegotorus.Chop.Send.Loop.{send_loop, AllModest}
use stegotorus.Chop.Send.Ends.{HasEnded, send_loop-HasEnded}
use stegotorus.Block.Reassembly.Stream.{Stream, Shows}
use stegotorus.Chop.Receive.Drain.{Drained, gap, delivered, process_queue-Drained}
use stegotorus.Chop.Retransmit
use stegotorus.Chop.Retransmit.{Retried}
use stegotorus.Chop.Retransmit.Again.{IsRetried, retransmit_aborts, retransmit-IsRetried}
use stegotorus.Chop.Receive.{Sender, process_queue, Receiver, no_flags, process_block}
use stegotorus.Chop.Receive.Settle.{Keeps}
use stegotorus.Chop.Receive.Deliver.{Processed, process_block-Processed}

abbrev zeros : Bytes
zeros = 0 ∷ 0 ∷ 0 ∷ 0 ∷ 0 ∷ 0 ∷ 0 ∷ 0 ∷ 0 ∷ 0 ∷ 0 ∷ 0 ∷ 0 ∷ 0 ∷ 0 ∷ 0 ∷ []

-- A cipher that changes nothing, with a tag of 16 zeros.
abbrev no_cipher : BlockCipher
no_cipher = record { encrypt = λ b. b; decrypt = λ b. b }

abbrev zero_tag : GcmEncryptor
zero_tag payload nonce = payload ++ zeros

abbrev takes_all : Bytes → Bool
takes_all b = true

-- Connections that offer what is preferred, and a fixed size.
abbrev willing : ChopConn
willing = record {
  has_steg = true;
  connected = true;
  sent_handshake = true;
  room = λ pref lo hi. pref;
}

abbrev offering : ℕ → ChopConn
offering n = record {
  has_steg = true;
  connected = true;
  sent_handshake = false;
  room = λ pref lo hi. n;
}

abbrev empty_circuit : ChopCircuit
empty_circuit = record {
  tx_queue = record {
    cbuf = λ i. record { hdr = invalid; contents = none };
    next_to_ack = 0;
    next_to_send = 0;
    overwrite_allowed = false;
  };
  dead_cycles = 4;
  sent_fin = false;
  upstream_eof = true;
  read_eof = false;
}

-- As many blocks out as the queue takes, and no connection, so that no call of the sending side changes
-- anything.
abbrev full_circuit : ChopCircuit
full_circuit = record empty_circuit {
  tx_queue = record empty_circuit.tx_queue { next_to_send = 256 };
  dead_cycles = 0;
}

abbrev idle_sender : Sender ℕ
idle_sender = record {
  ec = no_cipher;
  gc = zero_tag;
  deliver = takes_all;
  offers = λ c. [];
  send = λ c. returns c;
  process_protocol_data = λ cfg block c. returns c;
}

abbrev IsFull : ChopCircuit → Type 0
IsFull c = (c.tx_queue ≡ full_circuit.tx_queue)

IsFull-Keeps : Keeps plain idle_sender IsFull
unfolding send_special full
IsFull-Keeps = record {
  on_rst = λ c e. (let busy : full c.tx_queue ≡ true = rw e refl in rw busy e);
  on_send = λ c e. e;
  on_steg = λ cfg block c e. e;
  on_progress = λ c e. e;
}

abbrev empty_receiver : Receiver ℕ
empty_receiver = record {
  recv_queue = record {
    cbuf = λ i. record { contents = none; op = 0; steg_cfg = none; do_ack = false };
    next_to_process = 0;
    count = 0;
  };
  circuit = full_circuit;
  received_fin = false;
  write_eof = false;
  output = 1 ∷ [];
}

axe-flush_bounds_example :
    (100 ≤ flush_interval (λ hi xv. xv) 3)
    × (flush_interval (λ hi xv. xv) 3 < 20 * 60 * 1000 + 100)
    × (100 ≤ axe_interval (λ hi xv. xv) 3 100000)
    × (axe_interval (λ hi xv. xv) 3 100000 ≤ 30 * 60 * 1000)
    × (flush_interval (λ hi xv. 0) 5 < axe_interval (λ hi xv. xv) 0 100000)
axe-flush_bounds_example =
    axe-flush_bounds (λ hi xv. xv) (λ hi xv. 0) 3 100000 5 (λ hi xv p q. q)
      (λ hi xv p q. omega arith)

send_sized_aborts_example :
    send_sized plain no_cipher zero_tag takes_all 1 2 willing 70000 (7 ∷ 8 ∷ []) empty_circuit
    ≡ aborts
send_sized_aborts_example =
    send_sized_aborts plain no_cipher zero_tag takes_all 1 2 70000 willing (7 ∷ 8 ∷ [])
      empty_circuit (omega arith)

-- Connections 1 and 2 offer enough, and the second of them less.
pick_connection-IsBest_example :
    Ensures
      (IsBest
        (whole_desired 20)
        (whole_minimum 20 20)
        (offering 0 ∷ offering 300 ∷ offering 200 ∷ []))
      (pick_connection 20 20 (offering 0 ∷ offering 300 ∷ offering 200 ∷ []))
unfolding stegotorus.Chop.Pick.offer
pick_connection-IsBest_example =
    pick_connection-IsBest 20 20 (offering 0 ∷ offering 300 ∷ offering 200 ∷ []) (omega arith) (
      inl refl,
      (
        inr (omega arith, omega arith, omega arith),
        (inr (omega arith, omega arith, omega arith), tt),
      ),
    )

pick_connection-offering :
    pick_connection 20 20 (offering 0 ∷ offering 300 ∷ offering 200 ∷ []) ≡ returns (some 2, 200)
unfolding pick_connection stegotorus.Chop.Pick.scan stegotorus.Chop.Pick.consider
    stegotorus.Chop.Pick.offer stegotorus.Chop.Pick.improve
pick_connection-offering = refl

empty-IsWindow : IsWindow empty_circuit.tx_queue
empty-IsWindow = record { in_order = omega arith; at_most = omega arith; fits = omega arith }

process_block-Processed_example :
    Ensures
      (Processed IsFull empty_receiver 2 (5 ∷ 6 ∷ []))
      (process_block plain (λ out. true) idle_sender empty_receiver no_flags 2 (5 ∷ 6 ∷ []) none)
process_block-Processed_example =
    process_block-Processed plain plain-IsReliable (λ out. true) idle_sender IsFull IsFull-Keeps
      empty_receiver no_flags 2 (5 ∷ 6 ∷ []) none (inr (inl refl)) ((λ e. e), (λ e. e)) refl

-- Two connections that offer a byte of data, and nothing.
abbrev narrow : List ChopConn
narrow =
    record {
      has_steg = true;
      connected = true;
      sent_handshake = true;
      room = λ pref lo hi. if ltb lo max_block_size && leb lo pref then lo else 0;
    }
    ∷ offering 0
    ∷ []

narrow-AllModest : AllModest narrow
narrow-AllModest = (
  (λ pref lo hi. elim (Bool-cases (ltb lo max_block_size && leb lo pref)) [
    | inl fits ↦ rw fits (inr (ground arith, ground arith, ground arith))
    | inr big ↦ rw big (inl refl)
  ]),
  ((λ pref lo hi. inl refl), tt),
)

send_loop-HasEnded_example :
    Ensures
      (HasEnded (λ i. narrow) (7 ∷ 8 ∷ []))
      (send_loop plain no_cipher zero_tag takes_all 3 (λ i. narrow) (7 ∷ 8 ∷ []) empty_circuit)
send_loop-HasEnded_example =
    send_loop-HasEnded plain no_cipher zero_tag takes_all plain-IsReliable (λ b e. e)
      (λ b nonce. length-append b zeros) (λ b. refl) 3 (λ i. narrow) (7 ∷ 8 ∷ []) empty_circuit
      (omega arith) empty-IsWindow (omega arith) refl (λ i. narrow-AllModest)

-- Blocks 0, 1 and 3 have come; block 1 ends the stream.
abbrev come : Stream Bytes ℕ
come = record {
  blocks = λ i.
      if i == 0
      then some (5 ∷ 6 ∷ [], 1, none)
      else if i == 1
      then some (7 ∷ [], 2, none)
      else if i == 3
      then some (8 ∷ [], 1, none)
      else none;
  next = 0;
}

abbrev receiver : Receiver ℕ
receiver = record empty_receiver {
  recv_queue = record {
    cbuf = λ i.
        if i == 0
        then record { contents = some (5 ∷ 6 ∷ []); op = 1; steg_cfg = none; do_ack = false }
        else if i == 1
        then record { contents = some (7 ∷ []); op = 2; steg_cfg = none; do_ack = false }
        else if i == 3
        then record { contents = some (8 ∷ []); op = 1; steg_cfg = none; do_ack = false }
        else record { contents = none; op = 0; steg_cfg = none; do_ack = false };
    next_to_process = 0;
    count = 3;
  };
}

receiver-Shows : Shows receiver.recv_queue come
receiver-Shows = record {
  same_next = refl;
  same_blocks = λ i l. ground arith;
  none_ahead = λ i h. ground arith;
}

process_queue-Drained_example :
    Ensures
      (λ (x : Bool × Receiver ℕ).
        Drained 256 come receiver x.1
        × (come.blocks (gap 256 come.blocks 0) ≡ none)
        × IsFull x.1.circuit)
      (process_queue plain (λ out. true) idle_sender receiver)
process_queue-Drained_example =
    process_queue-Drained plain (λ out. true) idle_sender IsFull come receiver plain-IsReliable
      IsFull-Keeps (omega arith) receiver-Shows (λ i d op cfg e. ground (arith, e)) (λ e. e) refl

delivered-come : delivered 256 come.blocks 0 false ≡ 5 ∷ 6 ∷ 7 ∷ []
unfolding delivered
delivered-come = refl

-- A queue with `d` as the length of its one block.
abbrev one_block : ℕ → Option Bytes → TransmitQueue
one_block d contents = record {
  cbuf = λ i.
      if i == 0
      then record { hdr = record { s = 0; d = d; p = 0; f = 1; r = 0 }; contents = contents }
      else record { hdr = invalid; contents = none };
  next_to_ack = 0;
  next_to_send = 1;
  overwrite_allowed = false;
}

retransmit_aborts_example :
    Retransmit.retransmit plain no_cipher zero_tag takes_all [] (one_block 65504 (some [])) ≡ aborts
retransmit_aborts_example =
    retransmit_aborts plain no_cipher zero_tag takes_all [] (one_block 65504 (some []))
      (omega arith) (omega arith) (omega arith)

retransmit-IsRetried_example :
    Ensures
      (IsRetried plain no_cipher zero_tag takes_all narrow (one_block 2 (some (7 ∷ 8 ∷ []))) 0)
      (Retransmit.retransmit plain no_cipher zero_tag takes_all narrow
        (one_block 2 (some (7 ∷ 8 ∷ []))))
retransmit-IsRetried_example =
    retransmit-IsRetried plain no_cipher zero_tag takes_all plain-IsReliable narrow
      (one_block 2 (some (7 ∷ 8 ∷ []))) narrow-AllModest
      (record { in_order = omega arith; at_most = omega arith; fits = omega arith })
      (λ i contents e. ground (arith, e)) (λ i. ground arith) refl
