-- ===== src/Chop/Receive/Deliver.antt =====
-- `process_queue` of src/protocol/chop.cc on one block: what the upstream is given of it.
use stegotorus.Common.{
  ℕ, ◌≡◌, ◌⊎◌, inl, inr, refl, sym, ap, ◌∙◌, arith, Bool, true, false, ◌||◌, ◌==◌, if◌then◌else◌,
  Bool-cases, Option, [], ◌∷◌, ◌++◌, append-nil, if_true, if-false, returns, Ensures, Ensures-bind,
  Ensures-map,
}
use stegotorus.Common.Evbuffer.{Bytes, Evbuffer, IsReliable}
use stegotorus.Block.Opcode
use stegotorus.Chop.Receive.{
  Sender, Receiver, Flags, Turn, data_case, steg_case, block_case, settle_fin, settle_error,
  process_block,
}
use stegotorus.Chop.Receive.Settle.{
  IsOpen, Keeps, Settled, settle_fin-Settled, settle_error-Settled,
}
use stegotorus.Chop.Send.{ChopCircuit}

-- The opcodes of blocks on the queue.
abbrev pub IsQueued : ℕ → Type 0
IsQueued op = (op ≡ Opcode.dat) ⊎ (op ≡ Opcode.fin) ⊎ (op ≡ Opcode.steg0) ⊎ (op ≡ Opcode.steg_fin)

-- The bytes of a block for the upstream, before and after the end of the stream.
abbrev pub given : Bool → ℕ → Bytes → Bytes
given true op block = []
given false op block = if op == Opcode.dat || op == Opcode.fin then block else []

abbrev pub ended : Bool → ℕ → Bool
ended fin op = fin || (op == Opcode.fin || op == Opcode.steg_fin)

given_steg :
    (fin : Bool) (op : ℕ) (block : Bytes)
    → (op == Opcode.dat || op == Opcode.fin) ≡ false
    → given fin op block ≡ []
given_steg true op block e = refl
given_steg false op block e = rw e refl

late_pending :
    (received pending : Bool)
    → (pending ≡ true → received ≡ true)
    → (received || pending) ≡ (received || false)
late_pending received pending h = ground (arith, h)

module _ {C : Type 0} where
  pub record Processed (Safe : ChopCircuit → Type 0) (r : Receiver C) (op : ℕ) (block : Bytes)
      (t : Turn C) : Type 0 where
    pub still_safe : Safe t.0.circuit
    pub same_queue : t.0.recv_queue ≡ r.recv_queue
    pub output_lem : t.0.output ≡ r.output ++ given r.received_fin op block
    pub fin_lem : t.0.received_fin ≡ ended r.received_fin op
    pub still_open : IsOpen t.0 t.1

  -- What the `switch` does to the members that matter.
  record Switched (Safe : ChopCircuit → Type 0) (r : Receiver C) (bytes : Bytes) (fin : Bool)
      (t : Turn C) : Type 0 where
    switched_safe : Safe t.0.circuit
    queue_lem : t.0.recv_queue ≡ r.recv_queue
    bytes_lem : t.0.output ≡ r.output ++ bytes
    received_lem : t.0.received_fin ≡ r.received_fin
    eof_lem : t.0.write_eof ≡ r.write_eof
    pending_lem : (t.0.received_fin || t.1.pending_fin) ≡ (r.received_fin || fin)

module _ {C : Type 0} (ev : Evbuffer) (laws : IsReliable ev) (closes : Bytes → Bool)
    (sender : Sender C) (Safe : ChopCircuit → Type 0) (keeps : Keeps ev sender Safe) where
  data_case-Switched :
      (r : Receiver C) (fl : Flags) (block bytes : Bytes)
      → Safe r.circuit
      → (r.write_eof ≡ true → r.received_fin ≡ true)
      → (r.received_fin ≡ true → bytes ≡ [])
      → (r.received_fin ≡ false → bytes ≡ block)
      → Ensures (Switched Safe r bytes fl.pending_fin) (data_case ev closes sender r fl block)
  unfolding data_case
  data_case-Switched r fl [] bytes safe eof late early =
      let nothing : bytes ≡ [] = elim (Bool-cases r.received_fin) [
        | inl e ↦ late e
        | inr e ↦ early e
      ] in
      record {
        switched_safe = safe;
        queue_lem = refl;
        bytes_lem = rw nothing (sym (append-nil r.output));
        received_lem = refl;
        eof_lem = refl;
        pending_lem = refl;
      }
  data_case-Switched r fl (b ∷ bs) bytes safe eof late early = elim (Bool-cases r.received_fin) [
    | inl e ↦ rw (if_true r.received_fin _ _ e) (record {
      switched_safe = safe;
      queue_lem = refl;
      bytes_lem = rw (late e) (sym (append-nil r.output));
      received_lem = refl;
      eof_lem = refl;
      pending_lem = refl;
    })
    | inr e ↦ if-false (Ensures (Switched Safe r bytes fl.pending_fin)) r.received_fin _ _ e (
        let shut : r.write_eof ≡ false = elim (Bool-cases r.write_eof) [
          | inl w ↦ absurd (let f = eof w in cc)
          | inr w ↦ w
        ] in
        if-false (Ensures (Switched Safe r bytes fl.pending_fin)) r.write_eof _ _ shut (
          rw (laws.add_lem r.output (b ∷ bs)) (record {
            switched_safe = keeps.on_progress r.circuit safe;
            queue_lem = refl;
            bytes_lem = rw (early e) refl;
            received_lem = refl;
            eof_lem = refl;
            pending_lem = refl;
          })))
  ]

  -- A second end of the stream.
  refused :
      (r : Receiver C) (fl : Flags) (op : ℕ) (block : Bytes)
      → Safe r.circuit
      → r.received_fin ≡ true
      → Switched Safe r (given r.received_fin op block) true (r, record fl { pending_error = true })
  refused r fl op block safe late = record {
    switched_safe = safe;
    queue_lem = refl;
    bytes_lem =
        sym (append-nil r.output) ∙ ap (λ (f : Bool). r.output ++ given f op block) (sym late);
    received_lem = refl;
    eof_lem = refl;
    pending_lem = ground arith;
  }

  steg_case-Switched :
      (r : Receiver C) (fl : Flags) (op : ℕ) (block : Bytes) (cfg : Option C) (fin : Bool)
      → Safe r.circuit
      → (op == Opcode.dat || op == Opcode.fin) ≡ false
      → (r.received_fin || fl.pending_fin) ≡ (r.received_fin || fin)
      → Ensures
          (Switched Safe r (given r.received_fin op block) fin)
          (steg_case ev closes sender r fl block cfg)
  unfolding steg_case
  steg_case-Switched r fl op block cfg fin safe steg pending =
      Ensures-bind Safe (Switched Safe r (given r.received_fin op block) fin)
        (sender.process_protocol_data cfg block r.circuit) _
        (keeps.on_steg cfg block r.circuit safe)
        λ c safe'.
          Ensures-bind Safe (Switched Safe r (given r.received_fin op block) fin) (sender.send c) _
            (keeps.on_send c safe')
            λ c' safe''. record {
              switched_safe = safe'';
              queue_lem = refl;
              bytes_lem = rw (given_steg r.received_fin op block steg) (sym (append-nil r.output));
              received_lem = refl;
              eof_lem = refl;
              pending_lem = pending;
            }

  -- The `switch` as a whole.
  block_case-Switched :
      (r : Receiver C) (fl : Flags) (op : ℕ) (block : Bytes) (cfg : Option C)
      → IsQueued op
      → IsOpen r fl
      → Safe r.circuit
      → Ensures
          (Switched Safe r
            (given r.received_fin op block)
            (op == Opcode.fin || op == Opcode.steg_fin))
          (block_case ev closes sender r fl op block cfg)
  unfolding block_case
  block_case-Switched r fl op block cfg (inl e) ok safe = rw e (
      Ensures-map (Switched Safe r (given r.received_fin 1 block) fl.pending_fin)
        (Switched Safe r (given r.received_fin 1 block) false)
        (data_case ev closes sender r fl block)
        (data_case-Switched r fl block (given r.received_fin 1 block) safe ok.0 (λ e. rw e refl)
          (λ e. rw e refl))
        λ t sw. record {
          switched_safe = sw.switched_safe;
          queue_lem = sw.queue_lem;
          bytes_lem = sw.bytes_lem;
          received_lem = sw.received_lem;
          eof_lem = sw.eof_lem;
          pending_lem = sw.pending_lem ∙ late_pending r.received_fin fl.pending_fin ok.1;
        })
  block_case-Switched r fl op block cfg (inr (inl e)) ok safe =
      rw e (elim (Bool-cases r.received_fin) [
        | inl late ↦
            rw
              (if_true r.received_fin (returns (r, record fl { pending_error = true }))
                (data_case ev closes sender r (record fl { pending_fin = true }) block) late)
              (refused r fl 2 block safe late)
        | inr early ↦
            if-false (Ensures (Switched Safe r (given r.received_fin 2 block) true)) r.received_fin
              _ _ early
              (data_case-Switched r (record fl { pending_fin = true }) block
                (given r.received_fin 2 block) safe ok.0 (λ e. rw e refl) (λ e. rw e refl))
      ])
  block_case-Switched r fl op block cfg (inr (inr (inl e))) ok safe = rw e (
      steg_case-Switched r fl 128 block cfg false safe refl
        (late_pending r.received_fin fl.pending_fin ok.1))
  block_case-Switched r fl op block cfg (inr (inr (inr e))) ok safe =
      rw e (elim (Bool-cases r.received_fin) [
        | inl late ↦
            rw
              (if_true r.received_fin (returns (r, record fl { pending_error = true }))
                (steg_case ev closes sender r (record fl { pending_fin = true }) block cfg) late)
              (refused r fl 129 block safe late)
        | inr early ↦
            if-false (Ensures (Switched Safe r (given r.received_fin 129 block) true))
              r.received_fin _ _ early
              (steg_case-Switched r (record fl { pending_fin = true }) 129 block cfg true safe refl
                refl)
      ])

  -- For a block with one of the four opcodes of the queue, while the upstream is shut and an end pending
  -- only if the end of the stream was received, one round of the loop returns: the block's data go to
  -- the upstream unless the end was received before, the end is noted, the queue is left alone, and the
  -- upstream is again shut, or an end pending, only if the end was received. libevent is reliable, and
  -- the sending side is in a state where `send`, `send_special(op_RST)` and the steganography module's
  -- processing return, and which they and the reset of `dead_cycles` keep; it is kept.
  pub process_block-Processed :
      (r : Receiver C) (fl : Flags) (op : ℕ) (block : Bytes) (cfg : Option C)
      → IsQueued op
      → IsOpen r fl
      → Safe r.circuit
      → Ensures (Processed Safe r op block) (process_block ev closes sender r fl op block cfg)
  unfolding process_block
  process_block-Processed r fl op block cfg known ok safe =
      Ensures-bind
        (Switched Safe r (given r.received_fin op block)
          (op == Opcode.fin || op == Opcode.steg_fin))
        (Processed Safe r op block) (block_case ev closes sender r fl op block cfg) _
        (block_case-Switched r fl op block cfg known ok safe)
        λ t sw.
          (let fin =
              settle_fin-Settled ev closes sender Safe keeps t.0 t.1 sw.switched_safe
                (λ e. sw.received_lem ∙ ok.0 (sym sw.eof_lem ∙ e)) in
            let now = settle_fin ev closes sender t in
            Ensures-map (Settled Safe t.0 t.1) (Processed Safe r op block)
              (settle_error ev closes sender op now)
              (settle_error-Settled ev closes sender Safe keeps op t.0 now.0 t.1 now.1 fin)
              λ u st. record {
                still_safe = st.settled_safe;
                same_queue = st.settled_queue ∙ sw.queue_lem;
                output_lem = st.settled_output ∙ sw.bytes_lem;
                fin_lem = st.settled_fin ∙ sw.pending_lem;
                still_open = st.settled_open;
              })
