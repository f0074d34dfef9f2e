-- ===== src/Chop/Receive/Settle.antt =====
-- The end of a round of `process_queue` in src/protocol/chop.cc, behind its `switch`, and what the round asks
-- of the sending side.
use stegotorus.Common.{
  ℕ, ◌≡◌, inl, inr, refl, arith, Bool, true, ◌||◌, ◌&&◌, not, ◌==◌, Bool-cases, Option, [], Ensures,
  Ensures-bind,
}
use stegotorus.Common.Evbuffer.{Bytes, Evbuffer}
use stegotorus.Block.Opcode
use stegotorus.Chop.Receive.{Sender, Receiver, Flags, Turn, settle_fin, settle_error, send_rst}
use stegotorus.Chop.Send.{ChopCircuit, Sending, send_special}

module _ {C : Type 0} where
  -- The upstream is shut, or an end is pending, only when the end was received.
  abbrev pub IsOpen : Receiver C → Flags → Type 0
  IsOpen r fl =
      (r.write_eof ≡ true → r.received_fin ≡ true) × (fl.pending_fin ≡ true → r.received_fin ≡ true)

  -- A condition on the sending side under which the calls that `process_queue` makes of it return, and
  -- which they keep. So does the reset of its `dead_cycles`.
  pub record Keeps (ev : Evbuffer) (sender : Sender C) (Safe : ChopCircuit → Type 0) : Type 0 where
    pub on_rst :
        (c : ChopCircuit)
        → Safe c
        → Ensures
            (λ (x : Sending). Safe x.circuit)
            (send_special ev sender.ec sender.gc sender.deliver (sender.offers c) Opcode.rst [] c)
    pub on_send : (c : ChopCircuit) → Safe c → Ensures Safe (sender.send c)
    pub on_steg :
        (cfg : Option C) (block : Bytes) (c : ChopCircuit)
        → Safe c
        → Ensures Safe (sender.process_protocol_data cfg block c)
    pub on_progress : (c : ChopCircuit) → Safe c → Safe (record c { dead_cycles = 0 })

  -- Behind the `switch`, from `r` and `fl`.
  pub record Settled (Safe : ChopCircuit → Type 0) (r : Receiver C) (fl : Flags) (t : Turn C)
      : Type 0 where
    pub settled_safe : Safe t.0.circuit
    pub settled_queue : t.0.recv_queue ≡ r.recv_queue
    pub settled_output : t.0.output ≡ r.output
    pub settled_fin : t.0.received_fin ≡ (r.received_fin || fl.pending_fin)
    pub settled_open : IsOpen t.0 t.1

module _ {C : Type 0} (ev : Evbuffer) (closes : Bytes → Bool) (sender : Sender C)
    (Safe : ChopCircuit → Type 0) (keeps : Keeps ev sender Safe) where
  pub settle_fin-Settled :
      (r : Receiver C) (fl : Flags)
      → Safe r.circuit
      → (r.write_eof ≡ true → r.received_fin ≡ true)
      → Settled Safe r fl (settle_fin ev closes sender (r, fl))
  unfolding settle_fin
  settle_fin-Settled r fl safe eof = elim (Bool-cases (fl.pending_fin && not r.received_fin)) [
    | inl ends ↦ rw ends (record {
      settled_safe = safe;
      settled_queue = refl;
      settled_output = refl;
      settled_fin = ground arith;
      settled_open = ((λ e. refl), (λ e. refl));
    })
    | inr goes_on ↦ rw goes_on (record {
      settled_safe = safe;
      settled_queue = refl;
      settled_output = refl;
      settled_fin = ground arith;
      settled_open = (eof, (λ e. ground arith));
    })
  ]

  send_rst-Settled :
      (r r' : Receiver C) (fl fl' : Flags)
      → Settled Safe r fl (r', fl')
      → Ensures
          (λ (x : Receiver C). Settled Safe r fl (x, record fl' { sent_error = true }))
          (send_rst ev closes sender r')
  unfolding send_rst
  send_rst-Settled r r' fl fl' h =
      Ensures-bind (λ (x : Sending). Safe x.circuit)
        (λ (x : Receiver C). Settled Safe r fl (x, record fl' { sent_error = true }))
        (send_special ev sender.ec sender.gc sender.deliver (sender.offers r'.circuit) Opcode.rst []
          r'.circuit)
        _ (keeps.on_rst r'.circuit h.settled_safe)
        λ x safe. record {
          settled_safe = safe;
          settled_queue = h.settled_queue;
          settled_output = h.settled_output;
          settled_fin = h.settled_fin;
          settled_open = h.settled_open;
        }

  pub settle_error-Settled :
      (op : ℕ) (r r' : Receiver C) (fl fl' : Flags)
      → Settled Safe r fl (r', fl')
      → Ensures (Settled Safe r fl) (settle_error ev closes sender op (r', fl'))
  unfolding settle_error
  settle_error-Settled op r r' fl fl' h =
      elim (Bool-cases (fl'.pending_error && not fl'.sent_error)) [
        | inr nothing ↦ rw nothing h
        | inl bad ↦
            rw bad
              (elim (Bool-cases (op == Opcode.rst || op == Opcode.fin || op == Opcode.steg_fin)) [
                | inl silent ↦ rw silent (record {
                  settled_safe = h.settled_safe;
                  settled_queue = h.settled_queue;
                  settled_output = h.settled_output;
                  settled_fin = h.settled_fin;
                  settled_open = h.settled_open;
                })
                | inr told ↦ rw told (
                    Ensures-bind
                      (λ (x : Receiver C). Settled Safe r fl (x, record fl' { sent_error = true }))
                      (Settled Safe r fl) (send_rst ev closes sender r') _
                      (send_rst-Settled r r' fl fl' h) λ x done. done)
              ])
      ]
