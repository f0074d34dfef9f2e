-- ===== src/Chop/Retransmit.antt =====
-- `retransmit` of src/protocol/chop.cc, whose loop `send` repeats: one block that is out is sent again
-- on the first occasion.
pub mod Again
use stegotorus.Common.{
  ℕ, zero, suc, ◌+◌, ◌-◌, ◌%◌, ◌^◌, ◌<◌, ◌≤◌, ◌≡◌, ◌⊎◌, inl, inr, refl, sym, ap, ◌∙◌, arith, Bool,
  true, false, not, ◌||◌, ◌&&◌, ltb, leb, ◌==◌, if◌then◌else◌, Bool-cases, Option, Option-cases,
  none, some, is_some, List, [], ◌∷◌, length, update, add32, sub32, Outcome, returns, aborts, ◌>>=◌,
  ◌>>◌, log_assert, Ensures, Ensures-bind, Ensures-map,
}
use stegotorus.Common.Evbuffer.{Bytes, Evbuffer, IsReliable}
use stegotorus.Block.Header.{BlockCipher, Header, prepare_retransmit}
use stegotorus.Block.Transmit
use stegotorus.Block.Transmit.{
  GcmEncryptor, TransmitElt, TransmitQueue, retransmit_elt, transmit_elt,
}
use stegotorus.Chop.{ChopConn, shake, section_len, min_block_size, max_block_size}
use stegotorus.Chop.Pick.{whole_desired, whole_minimum, pick_connection}
use stegotorus.Chop.Send.Loop.{target_of}

-- The result, with 0 as true, the queue, and the block that was given to a connection.
pub record Retried : Type 0 where
  pub success : Bool
  pub queue : TransmitQueue
  pub block : Option Bytes

-- The smallest room for the block of an element.
abbrev pub least_room : TransmitElt → ℕ
least_room el = min_block_size + el.hdr.d

module _ (ev : Evbuffer) (ec : BlockCipher) (gc : GcmEncryptor) (deliver : Bytes → Bool) where
  -- The body of the loop behind `pick_connection`, for an element that has found a connection. The new
  -- padding is a `uint16_t`.
  unfoldable pub retry : TransmitQueue → ℕ → ℕ → Outcome Retried
  retry q seqno room =
      let lo = least_room (q.cbuf (seqno % 256)) in
      log_assert (leb lo room)
      >> (Transmit.retransmit ev ec gc q seqno ((room - lo) % 2 ^ 16) [] >>= λ sent. elim sent.0 [
        | none ↦ returns (record { success = false; queue = sent.1; block = none })
        | some block ↦
            returns (record { success = deliver block; queue = sent.1; block = some block })
      ])

  -- The loop, with `n` elements from `seqno` on before `end`. The iterator passes over elements without
  -- a block, but does not look at the one that it begins with.
  unfoldable pub retransmit_from : ℕ → Bool → ℕ → List ChopConn → TransmitQueue → Outcome Retried
  retransmit_from zero begins seqno conns q =
      returns (record { success = true; queue = q; block = none })
  retransmit_from (suc n) begins seqno conns q =
      let next = retransmit_from n false (add32 seqno 1) conns q in
      let lo = least_room (q.cbuf (seqno % 256)) in
      if begins || is_some (q.cbuf (seqno % 256)).contents
      then (pick_connection lo lo conns >>= λ picked. elim (target_of picked conns) [
        | none ↦ next
        | some (conn, room) ↦ retry q seqno room
      ])
      else next

  unfoldable pub retransmit : List ChopConn → TransmitQueue → Outcome Retried
  retransmit conns q =
      retransmit_from (sub32 q.next_to_send q.next_to_ack) true q.next_to_ack conns q
