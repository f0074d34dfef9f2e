-- ===== src/Block/Reassembly/Order.antt =====
-- Runs of the reassembly queue (src/protocol/chop_blk.cc) against the contract of `Stream`.
use stegotorus.Common.{
  ℕ, suc, ◌+◌, ◌^◌, ◌≤◌, ◌<◌, ◌≡◌, refl, arith, true, not, Bool-cases, leb, ltb, slice, map, All,
  ◌&&◌, inl, inr, Option, none, some, is_some, List, [], ◌∷◌, IsU32, length, ap, ap₂, Option-cases,
  sym, ◌∙◌,
}
use stegotorus.Block.Reassembly.{ReassemblyQueue, reassembly_queue}
use stegotorus.Block.Reassembly.Stream.{
  Stream, Call, Reply, insert_call, remove_call, inserted, removed, Shows, stream_step, queue_step,
  insert-Shows, remove-Shows, fresh-Shows, empty_stream,
}

module _ {D C : Type 0} where
  -- The calls in order, with their replies.
  unfoldable pub queue_run :
      ReassemblyQueue D C → List (Call D C) → List (Reply D C) × ReassemblyQueue D C
  queue_run q [] = ([], q)
  queue_run q (c ∷ cs) =
      let (r, q') = queue_step q c in let (rs, q'') = queue_run q' cs in (r ∷ rs, q'')

  pub stream_run : Stream D C → List (Call D C) → List (Reply D C) × Stream D C
  stream_run t [] = ([], t)
  stream_run t (c ∷ cs) =
      let (r, t') = stream_step t c in let (rs, t'') = stream_run t' cs in (r ∷ rs, t'')

  -- A sequence number is a uint32_t.
  abbrev pub Fits : Call D C → Type 0
  Fits (insert_call seqno op block cfg) = IsU32 seqno
  Fits remove_call = Unit {0}

  step-Shows :
      (q : ReassemblyQueue D C) (t : Stream D C) (c : Call D C)
      → t.next + 256 < 2 ^ 32
      → Fits c
      → Shows q t
      → ((queue_step q c).0 ≡ (stream_step t c).0) × Shows (queue_step q c).1 (stream_step t c).1
  step-Shows q t (insert_call seqno op block cfg) h l v = insert-Shows q t seqno op block cfg h l v
  step-Shows q t remove_call h l v = remove-Shows q t h v

  next-stream_step : (t : Stream D C) (c : Call D C) → (stream_step t c).1.next ≤ suc t.next
  unfolding stream_step
  next-stream_step t (insert_call seqno op block cfg) = ground arith
  next-stream_step t remove_call = ground arith

  run-Shows :
      (q : ReassemblyQueue D C) (t : Stream D C) (cs : List (Call D C))
      → t.next + length cs + 256 < 2 ^ 32
      → All Fits cs
      → Shows q t
      → ((queue_run q cs).0 ≡ (stream_run t cs).0) × Shows (queue_run q cs).1 (stream_run t cs).1
  unfolding queue_run stream_run
  run-Shows q t [] h l v = (refl, v)
  run-Shows q t (c ∷ cs) h (l, ls) v =
      let (e, v') = step-Shows q t c (omega arith) l v in
      let (es, v'') =
        run-Shows (queue_step q c).1 (stream_step t c).1 cs (omega (arith, next-stream_step t c)) ls
          v' in
      (ap₂ ◌∷◌ e es, v'')

  -- The blocks handed out, in the order of the calls.
  unfoldable pub delivered : List (Reply D C) → List (D × ℕ × Option C)
  delivered [] = []
  delivered (removed (some b) ∷ rs) = b ∷ delivered rs
  delivered (removed none ∷ rs) = delivered rs
  delivered (inserted ok ∷ rs) = delivered rs

  -- A block that was accepted stays as it is.
  step_keeps :
      (t : Stream D C) (c : Call D C) (i : ℕ)
      → is_some (t.blocks i) ≡ true
      → (stream_step t c).1.blocks i ≡ t.blocks i
  unfolding stream_step
  step_keeps t (insert_call seqno op block cfg) i h = ground arith
  step_keeps t remove_call i h = ground arith

  run_keeps :
      (t : Stream D C) (cs : List (Call D C)) (i : ℕ)
      → is_some (t.blocks i) ≡ true
      → (stream_run t cs).1.blocks i ≡ t.blocks i
  unfolding stream_run
  run_keeps t [] i h = refl
  run_keeps t (c ∷ cs) i h =
      let kept = step_keeps t c i h in
      run_keeps (stream_step t c).1 cs i (ap is_some kept ∙ h) ∙ kept

  -- What a stream hands out are the blocks of its history, one after the other.
  abbrev InOrder : Stream D C → List (Call D C) → Type 0
  InOrder t cs =
      map some (delivered (stream_run t cs).0)
      ≡ slice (stream_run t cs).1.blocks t.next (length (delivered (stream_run t cs).0))

  remove_order :
      (t : Stream D C) (cs : List (Call D C))
      → InOrder (stream_step t remove_call).1 cs
      → InOrder t (remove_call ∷ cs)
  unfolding stream_run stream_step delivered
  remove_order t cs ih = elim (Option-cases (t.blocks t.next)) [
    | inl missing ↦ rw missing (rw missing at ih)
    | inr (b, come) ↦
        let after : Stream D C = record t { next = suc t.next } in
        let first = run_keeps after cs t.next (rw come) ∙ come in
        rw come (ap₂ ◌∷◌ (sym first) (rw come at ih))
  ]

  insert_order :
      (t : Stream D C) (seqno op : ℕ) (block : D) (cfg : Option C) (cs : List (Call D C))
      → InOrder (stream_step t (insert_call seqno op block cfg)).1 cs
      → InOrder t (insert_call seqno op block cfg ∷ cs)
  unfolding stream_run stream_step delivered
  insert_order t seqno op block cfg cs ih =
      elim (Bool-cases
        (leb t.next seqno && ltb seqno (t.next + 256) && not (is_some (t.blocks seqno)))) [
          | inl ok ↦ rw ok (rw ok at ih)
          | inr refused ↦ rw refused (rw refused at ih)
        ]

  run_order : (t : Stream D C) (cs : List (Call D C)) → InOrder t cs
  run_order t [] = unfold stream_run delivered in refl
  run_order t (insert_call seqno op block cfg ∷ cs) =
      insert_order t seqno op block cfg cs
        (run_order (stream_step t (insert_call seqno op block cfg)).1 cs)
  run_order t (remove_call ∷ cs) = remove_order t cs (run_order (stream_step t remove_call).1 cs)

  -- Over any calls on a new queue, fewer than 2^32 - 256 of them and each sequence number a
  -- uint32_t, the queue gives the replies of the contract.
  pub queue_run-stream_run :
      (cs : List (Call D C))
      → length cs + 256 < 2 ^ 32
      → All Fits cs
      → (queue_run reassembly_queue cs).0 ≡ (stream_run empty_stream cs).0
  queue_run-stream_run cs h l =
      (run-Shows reassembly_queue empty_stream cs (omega arith) l fresh-Shows).0

  -- Over any calls on a new queue, fewer than 2^32 - 256 of them and each sequence number a
  -- uint32_t, the blocks handed out are the first of the contract's history: the blocks that it
  -- accepted as number 0, 1, 2 and so on, in this order.
  pub queue_run_in_order :
      (cs : List (Call D C))
      → length cs + 256 < 2 ^ 32
      → All Fits cs
      → map some (delivered (queue_run reassembly_queue cs).0)
        ≡ slice
            (stream_run empty_stream cs).1.blocks
            0
            (length (delivered (queue_run reassembly_queue cs).0))
  queue_run_in_order cs h l = rw (queue_run-stream_run cs h l) (run_order empty_stream cs)
