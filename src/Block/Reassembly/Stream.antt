-- ===== src/Block/Reassembly/Stream.antt =====
-- The contract of the reassembly queue (src/protocol/chop_blk.h): a window over the blocks by their
-- sequence numbers. One call at a time, the circular buffer shows the blocks of the window.
use stegotorus.Common.{
  ℕ, suc, ◌+◌, ◌-◌, ◌%◌, ◌^◌, ◌≤◌, ◌<◌, ◌≡◌, refl, arith, Bool, true, false, not, Bool-cases, leb,
  ltb, ◌&&◌, if◌then◌else◌, inl, inr, Option, none, some, is_some, sub32, add32, IsU32, update, ap,
  sym, ◌∙◌,
}
use stegotorus.Block.Reassembly.{
  ReassemblyElt, ReassemblyQueue, reassembly_queue, remove_next, insert, position, front, vacated,
}

-- The contract: the blocks by sequence number, and the next one to hand out. Nothing is ever taken
-- off `blocks`, so that it is the history of what was accepted.
pub record Stream (D C : Type 0) : Type 0 where
  pub blocks : ℕ → Option (D × ℕ × Option C)
  pub next : ℕ

pub data Call (D C : Type 0) : Type 0 where
  insert_call : ℕ → ℕ → D → Option C → Call D C
  remove_call : Call D C

pub data Reply (D C : Type 0) : Type 0 where
  inserted : Bool → Reply D C
  removed : Option (D × ℕ × Option C) → Reply D C

module _ {D C : Type 0} where
  abbrev pub seen : ReassemblyElt D C → Option (D × ℕ × Option C)
  seen e = elim e.contents [ none ↦ none | some d ↦ some (d, e.op, e.steg_cfg) ]

  unfoldable pub stream_step : Stream D C → Call D C → Reply D C × Stream D C
  stream_step t (insert_call seqno op block steg_cfg) =
      if leb t.next seqno && ltb seqno (t.next + 256) && not (is_some (t.blocks seqno))
      then (inserted true, record t { blocks = update t.blocks seqno (some (block, op, steg_cfg)) })
      else (inserted false, t)
  stream_step t remove_call =
      if is_some (t.blocks t.next)
      then (removed (t.blocks t.next), record t { next = suc t.next })
      else (removed none, t)

  unfoldable pub queue_step : ReassemblyQueue D C → Call D C → Reply D C × ReassemblyQueue D C
  queue_step q (insert_call seqno op block steg_cfg) =
      let (ok, q') = insert q seqno op block steg_cfg in (inserted ok, q')
  queue_step q remove_call = let (e, q') = remove_next q in (removed (seen e), q')

  -- The queue shows the blocks of the stream that lie in the window.
  pub record Shows (q : ReassemblyQueue D C) (t : Stream D C) : Type 0 where
    pub same_next : q.next_to_process ≡ t.next
    pub same_blocks : (i : ℕ) → i < 256 → seen (q.cbuf ((t.next + i) % 256)) ≡ t.blocks (t.next + i)
    pub none_ahead : (i : ℕ) → t.next + 256 ≤ i → t.blocks i ≡ none

  advance : ReassemblyQueue D C → ReassemblyQueue D C
  advance q = record {
    cbuf = update q.cbuf (front q) vacated;
    next_to_process = add32 q.next_to_process 1;
    count = sub32 q.count 1;
  }

  is_some-seen : (e : ReassemblyElt D C) → is_some (seen e) ≡ is_some e.contents
  is_some-seen e = ground arith

  -- The place of a block of the window.
  position_lem :
      (q : ReassemblyQueue D C) (n i : ℕ)
      → q.next_to_process ≡ n
      → n + 256 < 2 ^ 32
      → i < 256
      → position q (n + i) ≡ (n + i) % 256
  position_lem q n i e h l = omega arith

  abbrev pub empty_stream : Stream D C
  empty_stream = record { blocks = λ _. none; next = 0 }

  pub fresh-Shows : Shows reassembly_queue empty_stream
  unfolding reassembly_queue
  fresh-Shows = record { same_next = refl; same_blocks = λ i l. refl; none_ahead = λ i h. refl }

  seen-front :
      (q : ReassemblyQueue D C) (t : Stream D C)
      → Shows q t
      → seen (q.cbuf (front q)) ≡ t.blocks t.next
  seen-front q t v = ground (arith, v.same_next, v.same_blocks 0)

  front_full :
      (q : ReassemblyQueue D C) (t : Stream D C)
      → Shows q t
      → is_some (q.cbuf (front q)).contents ≡ is_some (t.blocks t.next)
  front_full q t v = sym (is_some-seen (q.cbuf (front q))) ∙ ap is_some (seen-front q t v)

  advance-Shows :
      (q : ReassemblyQueue D C) (t : Stream D C)
      → t.next + 256 < 2 ^ 32
      → Shows q t
      → Shows (advance q) (record t { next = suc t.next })
  unfolding advance
  advance-Shows q t h v = record {
    same_next = ground (arith, v.same_next);
    same_blocks = λ i l. ground (arith, v.same_blocks (i + 1), v.none_ahead (t.next + 256));
    none_ahead = λ i l. v.none_ahead i (omega arith);
  }

  pub remove-Shows :
      (q : ReassemblyQueue D C) (t : Stream D C)
      → t.next + 256 < 2 ^ 32
      → Shows q t
      → ((queue_step q remove_call).0 ≡ (stream_step t remove_call).0)
        × Shows (queue_step q remove_call).1 (stream_step t remove_call).1
  unfolding queue_step stream_step remove_next advance
  remove-Shows q t h v = elim (Bool-cases (is_some (t.blocks t.next))) [
    | inl come ↦
        let full : is_some (q.cbuf (front q)).contents ≡ true = front_full q t v ∙ come in
        rw (come, full) (ap removed (seen-front q t v), advance-Shows q t h v)
    | inr missing ↦
        let open_slot : is_some (q.cbuf (front q)).contents ≡ false = front_full q t v ∙ missing in
        rw (missing, open_slot) (refl, v)
  ]

  -- The two tests of the window agree.
  window_test :
      (q : ReassemblyQueue D C) (n seqno : ℕ)
      → q.next_to_process ≡ n
      → n + 256 < 2 ^ 32
      → IsU32 seqno
      → ltb 255 (sub32 seqno q.next_to_process) ≡ not (leb n seqno && ltb seqno (n + 256))
  window_test q n seqno e h l = ground arith

  seen-slot :
      (q : ReassemblyQueue D C) (t : Stream D C) (seqno : ℕ)
      → Shows q t
      → t.next + 256 < 2 ^ 32
      → t.next ≤ seqno
      → seqno < t.next + 256
      → seen (q.cbuf (position q seqno)) ≡ t.blocks seqno
  seen-slot q t seqno v h lo hi =
      ground
        (arith, v.same_next, v.same_blocks (seqno - t.next), position_lem q t.next (seqno - t.next))

  fill : ReassemblyQueue D C → ℕ → ℕ → D → Option C → ReassemblyQueue D C
  fill q seqno op block cfg = record q {
    cbuf =
        update q.cbuf (position q seqno)
          (record (q.cbuf (position q seqno)) { contents = some block; op = op; steg_cfg = cfg });
    count = add32 q.count 1;
  }

  fill-Shows :
      (q : ReassemblyQueue D C) (t : Stream D C) (seqno op : ℕ) (block : D) (cfg : Option C)
      → t.next + 256 < 2 ^ 32
      → t.next ≤ seqno
      → seqno < t.next + 256
      → Shows q t
      → Shows
          (fill q seqno op block cfg)
          (record t { blocks = update t.blocks seqno (some (block, op, cfg)) })
  unfolding fill
  fill-Shows q t seqno op block cfg h lo hi v = record {
    same_next = v.same_next;
    same_blocks =
        λ i l. ground (arith, v.same_next, v.same_blocks i, position_lem q t.next (seqno - t.next));
    none_ahead = λ i l. ground (arith, v.none_ahead i);
  }

  pub insert-Shows :
      (q : ReassemblyQueue D C) (t : Stream D C) (seqno op : ℕ) (block : D) (cfg : Option C)
      → t.next + 256 < 2 ^ 32
      → IsU32 seqno
      → Shows q t
      → ((queue_step q (insert_call seqno op block cfg)).0
          ≡ (stream_step t (insert_call seqno op block cfg)).0)
        × Shows
            (queue_step q (insert_call seqno op block cfg)).1
            (stream_step t (insert_call seqno op block cfg)).1
  unfolding queue_step stream_step insert fill
  insert-Shows q t seqno op block cfg h l v =
      let w = window_test q t.next seqno v.same_next h l in
      elim (Bool-cases (leb t.next seqno && ltb seqno (t.next + 256))) [
        | inr out ↦ rw (w, out) (refl, v)
        | inl within ↦
            let slot = seen-slot q t seqno v h (ground arith) (ground arith) in
            let full = sym (is_some-seen (q.cbuf (position q seqno))) ∙ ap is_some slot in
            elim (Bool-cases (is_some (t.blocks seqno))) [
              | inl held ↦ rw (w, within, full, held) (refl, v)
              | inr free ↦
                  rw (w, within, full, free)
                    (refl, fill-Shows q t seqno op block cfg h (ground arith) (ground arith) v)
            ]
      ]
