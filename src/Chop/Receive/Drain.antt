-- ===== src/Chop/Receive/Drain.antt =====
-- The loop of `process_queue` in src/protocol/chop.cc, over the contract of the reassembly queue.
use stegotorus.Common.{
  ℕ, zero, suc, ◌+◌, ◌^◌, ◌<◌, ◌≤◌, ◌≡◌, inl, inr, sym, ap, ◌∙◌, arith, Bool, true, Option,
  Option-cases, none, some, [], ◌++◌, append-nil, append_assoc, Ensures, Ensures-bind, Ensures-map,
}
use stegotorus.Common.Evbuffer.{Bytes, Evbuffer, IsReliable}
use stegotorus.Block.Reassembly.{ReassemblyElt, ReassemblyQueue, remove_next}
use stegotorus.Block.Reassembly.Stream.{
  Stream, Shows, seen, removed, queue_step, stream_step, remove-Shows,
}
use stegotorus.Chop.Receive.{
  Sender, Receiver, Flags, Turn, no_flags, process_block, process_loop, process_queue,
}
use stegotorus.Chop.Receive.Settle.{IsOpen, Keeps}
use stegotorus.Chop.Receive.Deliver.{IsQueued, Processed, given, ended, process_block-Processed}
use stegotorus.Chop.Send.{ChopCircuit}

module _ {C : Type 0} where
  -- What up to `n` blocks from `next` on give to the upstream: those before the first gap.
  unfoldable pub delivered : ℕ → (ℕ → Option (Bytes × ℕ × Option C)) → ℕ → Bool → Bytes
  delivered zero blocks next fin = []
  delivered (suc n) blocks next fin = elim (blocks next) [
    | none ↦ []
    | some (d, op, cfg) ↦ given fin op d ++ delivered n blocks (suc next) (ended fin op)
  ]

  -- The first gap.
  unfoldable pub gap : ℕ → (ℕ → Option (Bytes × ℕ × Option C)) → ℕ → ℕ
  gap zero blocks next = next
  gap (suc n) blocks next = elim (blocks next) [ none ↦ next | some b ↦ gap n blocks (suc next) ]

  abbrev pub AllQueued : Stream Bytes C → Type 0
  AllQueued t =
      (i : ℕ) (d : Bytes) (op : ℕ) (cfg : Option C) → t.blocks i ≡ some (d, op, cfg) → IsQueued op

  pub record Drained (n : ℕ) (t : Stream Bytes C) (r r' : Receiver C) : Type 0 where
    pub in_order : r'.output ≡ r.output ++ delivered n t.blocks t.next r.received_fin
    pub rest : Shows r'.recv_queue (record t { next = gap n t.blocks t.next })

  seen-none : (e : ReassemblyElt Bytes C) → seen e ≡ none → e.contents ≡ none
  seen-none e h = ground (arith, h)

  seen-some :
      (e : ReassemblyElt Bytes C) (d : Bytes) (op : ℕ) (cfg : Option C)
      → seen e ≡ some (d, op, cfg)
      → (e.contents ≡ some d) × (e.op ≡ op) × (e.steg_cfg ≡ cfg)
  seen-some e d op cfg h = (ground (arith, h), ground (arith, h), ground (arith, h))

  remove_none :
      (q : ReassemblyQueue Bytes C) (t : Stream Bytes C)
      → t.next + 256 < 2 ^ 32
      → Shows q t
      → t.blocks t.next ≡ none
      → (remove_next q).0.contents ≡ none
  unfolding queue_step stream_step
  remove_none q t h v e =
      let s = remove-Shows q t h v in
      seen-none (remove_next q).0
        (let x : removed (seen (remove_next q).0) ≡ removed none = rw e at s.0 in cc)

  remove_some :
      (q : ReassemblyQueue Bytes C) (t : Stream Bytes C) (d : Bytes) (op : ℕ) (cfg : Option C)
      → t.next + 256 < 2 ^ 32
      → Shows q t
      → t.blocks t.next ≡ some (d, op, cfg)
      → (seen (remove_next q).0 ≡ some (d, op, cfg))
        × Shows (remove_next q).1 (record t { next = suc t.next })
  unfolding queue_step stream_step
  remove_some q t d op cfg h v e =
      let s = rw e at (remove-Shows q t h v) in
      (let x : removed (seen (remove_next q).0) ≡ removed (some (d, op, cfg)) = s.0 in cc, s.1)

module _ {C : Type 0} (ev : Evbuffer) (laws : IsReliable ev) (closes : Bytes → Bool)
    (sender : Sender C) (Safe : ChopCircuit → Type 0) (keeps : Keeps ev sender Safe) where
  process_loop-Drained :
      (n : ℕ) (t : Stream Bytes C) (r : Receiver C) (fl : Flags)
      → t.next + n + 256 < 2 ^ 32
      → Shows r.recv_queue t
      → ((i : ℕ) → t.next + n ≤ i → t.blocks i ≡ none)
      → AllQueued t
      → IsOpen r fl
      → Safe r.circuit
      → Ensures
          (λ (x : Turn C). Drained n t r x.0 × IsOpen x.0 x.1 × Safe x.0.circuit)
          (process_loop ev closes sender (suc n) r fl)
  unfolding process_loop delivered gap
  process_loop-Drained zero t r fl small v past known ok safe =
      let nothing = past t.next (omega arith) in
      rw (remove_none r.recv_queue t (omega arith) v nothing, process_loop)
        (record { in_order = sym (append-nil r.output); rest = v }, ok, safe)
  process_loop-Drained (suc n) t r fl small v past known ok safe =
      elim (Option-cases (t.blocks t.next)) [
        | inl e ↦
            rw (remove_none r.recv_queue t (omega arith) v e, process_loop)
              (
                record {
                  in_order = rw (e, delivered) (sym (append-nil r.output));
                  rest = rw (e, gap) v;
                },
                ok,
                safe,
              )
        | inr ((d, op, cfg), e) ↦
            (let (same, v') = remove_some r.recv_queue t d op cfg (omega arith) v e in
              let (contents, op_lem, cfg_lem) =
                seen-some (remove_next r.recv_queue).0 d op cfg same in
              let r' : Receiver C = record r { recv_queue = (remove_next r.recv_queue).1 } in
              rw (contents, op_lem, process_loop)
                (Ensures-bind (Processed Safe r' op d)
                  (λ (x : Turn C). Drained (suc n) t r x.0 × IsOpen x.0 x.1 × Safe x.0.circuit)
                  (process_block ev closes sender r' fl op d (remove_next r.recv_queue).0.steg_cfg)
                  _
                  (process_block-Processed ev laws closes sender Safe keeps r' fl op d
                    (remove_next r.recv_queue).0.steg_cfg (known t.next d op cfg e) ok safe)
                  λ x p.
                    Ensures-map
                      (λ (y : Turn C).
                        Drained n (record t { next = suc t.next }) x.0 y.0
                        × IsOpen y.0 y.1
                        × Safe y.0.circuit)
                      (λ (y : Turn C). Drained (suc n) t r y.0 × IsOpen y.0 y.1 × Safe y.0.circuit)
                      (process_loop ev closes sender (suc n) x.0 x.1)
                      (process_loop-Drained n (record t { next = suc t.next }) x.0 x.1 (omega arith)
                        (rw p.same_queue v') (λ i h. past i (omega arith)) known p.still_open
                        p.still_safe)
                      λ y dr. (
                        record {
                          in_order =
                              rw (e, delivered)
                                (dr.0.in_order
                                  ∙ ap
                                      (λ (f : Bool).
                                        x.0.output ++ delivered n t.blocks (suc t.next) f)
                                      p.fin_lem
                                  ∙ ap
                                      (λ (o : Bytes).
                                        o
                                        ++ delivered n t.blocks (suc t.next)
                                            (ended r.received_fin op))
                                      p.output_lem
                                  ∙ append_assoc r.output (given r.received_fin op d) (
                                      delivered n t.blocks (suc t.next) (ended r.received_fin op)));
                          rest = rw (e, gap) dr.0.rest;
                        },
                        dr.1,
                        dr.2,
                      )))
      ]

gap_lem :
    {C : Type 0} (n : ℕ) (blocks : ℕ → Option (Bytes × ℕ × Option C)) (next : ℕ)
    → ((i : ℕ) → next + n ≤ i → blocks i ≡ none)
    → blocks (gap n blocks next) ≡ none
unfolding gap
gap_lem zero blocks next past = past next (omega arith)
gap_lem (suc n) blocks next past = elim (Option-cases (blocks next)) [
  | inl e ↦ rw (e, gap) e
  | inr (b, e) ↦ rw (e, gap) (gap_lem n blocks (suc next) (λ i h. past i (omega arith)))
]

-- `process_queue` returns up to its test of `sent_error`. It has handed the data of the blocks before the
-- first gap to the upstream, in the order of their numbers and up to the end of the stream, and left the
-- blocks behind the gap. This is for a reliable libevent, a queue that shows the stream `t` and is more
-- than 512 blocks from the end of the sequence numbers, blocks with the four opcodes of the queue, an
-- upstream that is shut only after the end of the stream was received, and a sending side in a state
-- where `send`, `send_special(op_RST)` and the steganography module's processing return, and which they
-- and the reset of `dead_cycles` keep; it is kept.
pub process_queue-Drained :
    {C : Type 0} (ev : Evbuffer) (closes : Bytes → Bool) (sender : Sender C)
    (Safe : ChopCircuit → Type 0) (t : Stream Bytes C) (r : Receiver C)
    → IsReliable ev
    → Keeps ev sender Safe
    → t.next + 512 < 2 ^ 32
    → Shows r.recv_queue t
    → AllQueued t
    → (r.write_eof ≡ true → r.received_fin ≡ true)
    → Safe r.circuit
    → Ensures
        (λ (x : Bool × Receiver C).
          Drained 256 t r x.1 × (t.blocks (gap 256 t.blocks t.next) ≡ none) × Safe x.1.circuit)
        (process_queue ev closes sender r)
unfolding process_queue
process_queue-Drained {C} ev closes sender Safe t r laws keeps small v known shut safe =
    Ensures-bind (λ (x : Turn C). Drained 256 t r x.0 × IsOpen x.0 x.1 × Safe x.0.circuit)
      (λ (x : Bool × Receiver C).
        Drained 256 t r x.1 × (t.blocks (gap 256 t.blocks t.next) ≡ none) × Safe x.1.circuit)
      (process_loop ev closes sender 257 r no_flags) _
      (process_loop-Drained ev laws closes sender Safe keeps 256 t r no_flags (omega arith) v
        v.none_ahead known (shut, λ e. absurd (cc)) safe)
      λ x d. (d.0, gap_lem 256 t.blocks t.next v.none_ahead, d.2)
