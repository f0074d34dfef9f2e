-- ===== src/Chop/Retransmit/Again.antt =====
-- What `retransmit` of src/protocol/chop.cc sends again.
use stegotorus.Common.{
  ℕ, zero, suc, ◌+◌, ◌-◌, ◌%◌, ◌^◌, ◌<◌, ◌≤◌, ◌≡◌, ◌⊎◌, inl, inr, refl, sym, ap, arith, Bool, true,
  false, ◌||◌, ◌&&◌, ltb, leb, ◌==◌, Bool-cases, Option, Option-cases, none, some, is_some, List,
  [], length, update, add32, sub32, aborts, Ensures, Ensures-bind, Ensures-map,
}
use stegotorus.Common.Evbuffer.{Bytes, Evbuffer, IsReliable}
use stegotorus.Block.Header.{BlockCipher, Header, prepare_retransmit}
use stegotorus.Block.Transmit
use stegotorus.Block.Transmit.{
  GcmEncryptor, TransmitElt, TransmitQueue, retransmit_elt, transmit_elt, transmit_contents,
  wire_block,
}
use stegotorus.Block.Transmit.Send.{transmit_contents_lem}
use stegotorus.Block.Transmit.Discard.{IsWindow}
use stegotorus.Chop.{ChopConn, section_len}
use stegotorus.Chop.Pick.{whole_desired, whole_minimum, pick_connection}
use stegotorus.Chop.Pick.Best.{Silent, IsBest, pick_connection-IsBest}
use stegotorus.Chop.Send.Loop.{AllModest, AllModest-AllFair, target_of-InRange}
use stegotorus.Chop.Retransmit.{Retried, least_room, retry, retransmit_from, retransmit}

module _ (ev : Evbuffer) (ec : BlockCipher) (gc : GcmEncryptor) (deliver : Bytes → Bool) where
  first_aborts :
      (n seqno : ℕ) (conns : List ChopConn) (q : TransmitQueue)
      → 65503 < (q.cbuf (seqno % 256)).hdr.d
      → retransmit_from ev ec gc deliver (suc n) true seqno conns q ≡ aborts
  unfolding retransmit_from pick_connection
  first_aborts n seqno conns q large =
      let over : leb (least_room (q.cbuf (seqno % 256))) section_len ≡ false = ground arith in
      rw (over) refl

  -- A block that is out at the front of the queue, with more than 65503 bytes by its header, ends the
  -- process, whatever the connections offer and even if there are none. The next number is a uint32_t.
  pub retransmit_aborts :
      (conns : List ChopConn) (q : TransmitQueue)
      → q.next_to_ack < q.next_to_send
      → q.next_to_send < 2 ^ 32
      → 65503 < (q.cbuf (q.next_to_ack % 256)).hdr.d
      → retransmit ev ec gc deliver conns q ≡ aborts
  unfolding retransmit
  retransmit_aborts conns q out small large =
      let some_out : sub32 q.next_to_send q.next_to_ack ≡ suc (q.next_to_send - q.next_to_ack - 1) =
        omega arith in
      rw some_out (first_aborts (q.next_to_send - q.next_to_ack - 1) q.next_to_ack conns q large)

  -- Block `s` is out, with `contents`.
  pub record IsOut (q : TransmitQueue) (s : ℕ) (contents : Bytes) : Type 0 where
    pub after_ack : q.next_to_ack ≤ s
    pub before_send : s < q.next_to_send
    pub there : (q.cbuf (s % 256)).contents ≡ some contents
    pub fits : length contents ≡ (q.cbuf (s % 256)).hdr.d

  -- The element of a block that goes out once more.
  abbrev pub again : TransmitElt → ℕ → TransmitElt
  again el p = record el { hdr = record el.hdr { r = el.hdr.r + 1; p = p } }

  -- No connection offers anything for any block that is out, from number `first` on.
  abbrev pub AllSilent : List ChopConn → TransmitQueue → ℕ → Type 0
  AllSilent conns q first =
      (s : ℕ) (contents : Bytes)
      → first ≤ s
      → IsOut q s contents
      → Silent (whole_desired (least_room (q.cbuf (s % 256))))
          (whole_minimum (least_room (q.cbuf (s % 256))) (least_room (q.cbuf (s % 256)))) conns

  -- Nothing is done for want of an offer; or the block has been sent 255 times; or it is sent again,
  -- and counted.
  abbrev pub IsRetried : List ChopConn → TransmitQueue → ℕ → Retried → Type 0
  IsRetried conns q first r =
      ((r.success ≡ true) × (r.block ≡ none) × (r.queue ≡ q) × AllSilent conns q first)
      ⊎ ((s : ℕ) × (contents : Bytes) × IsOut q s contents
          × ((q.cbuf (s % 256)).hdr.r ≡ 255)
          × (r.success ≡ false)
          × (r.block ≡ none))
      ⊎ ((s : ℕ) × (contents : Bytes) × (p : ℕ) × IsOut q s contents
          × (p < 2 ^ 16)
          × (r.block ≡ some (wire_block ev ec gc (again (q.cbuf (s % 256)) p).hdr contents))
          × (r.success ≡ deliver (wire_block ev ec gc (again (q.cbuf (s % 256)) p).hdr contents))
          × (r.queue ≡ record q { cbuf = update q.cbuf (s % 256) (again (q.cbuf (s % 256)) p) }))

  -- One block more from which on nobody offers anything.
  IsRetried-earlier :
      (conns : List ChopConn) (q : TransmitQueue) (s : ℕ)
      → ((contents : Bytes)
          → IsOut q s contents
          → Silent
              (whole_desired (least_room (q.cbuf (s % 256))))
              (whole_minimum (least_room (q.cbuf (s % 256))) (least_room (q.cbuf (s % 256))))
              conns)
      → (r : Retried) → IsRetried conns q (s + 1) r
      → IsRetried conns q s r
  IsRetried-earlier conns q s here r (inl (ok, idle, same, silent)) = inl (
    ok,
    idle,
    same,
    λ i contents le out. elim (Bool-cases (ltb s i)) [
      | inl later ↦ silent i contents (ground arith) out
      | inr now ↦
          let same_number : s ≡ i = ground arith in
          (let there = rw same_number at here in there contents out)
    ],
  )
  IsRetried-earlier conns q s here r (inr other) = inr other

  prepare_worn : (h : Header) (p : ℕ) → (h.r == 255) ≡ true → prepare_retransmit h p ≡ (false, h)
  unfolding prepare_retransmit
  prepare_worn h p e = rw e refl

  prepare_fresh :
      (h : Header) (p : ℕ)
      → (h.r == 255) ≡ false
      → prepare_retransmit h p ≡ (true, record h { r = h.r + 1; p = p % 2 ^ 16 })
  unfolding prepare_retransmit
  prepare_fresh h p e = rw e refl

  module _ (laws : IsReliable ev) where
    retry-IsRetried :
        (conns : List ChopConn) (first : ℕ) (q : TransmitQueue) (s room : ℕ) (contents : Bytes)
        → IsOut q s contents
        → least_room (q.cbuf (s % 256)) ≤ room
        → Ensures (IsRetried conns q first) (retry ev ec gc deliver q s room)
    unfolding retry Transmit.retransmit retransmit_elt transmit_elt
    retry-IsRetried conns first q s room contents out enough =
        let el = q.cbuf (s % 256) in
        let wide : leb (least_room el) room ≡ true = ground arith in
        let within : (leb q.next_to_ack s && ltb s q.next_to_send) ≡ true =
          ground (arith, out.after_ack, out.before_send) in
        elim (Bool-cases (el.hdr.r == 255)) [
          | inl worn ↦
              rw (wide, within, prepare_worn el.hdr ((room - least_room el) % 2 ^ 16) worn)
                (inr (inl (s, contents, out, ground (arith, worn), refl, refl)))
          | inr fresh ↦
              let p = (room - least_room el) % 2 ^ 16 in
              let fits : p % 2 ^ 16 ≡ p = omega arith in
              rw
                (
                  wide,
                  within,
                  prepare_fresh el.hdr p fresh,
                  fits,
                  out.there,
                  prepare_fresh el.hdr p fresh,
                  fits,
                  transmit_contents_lem ev laws ec gc [] contents (again el p).hdr out.fits,
                )
                (inr (
                  inr (
                    s,
                    contents,
                    p,
                    out,
                    omega arith,
                    refl,
                    refl,
                    ap
                        (λ (o : Option Bytes). record q {
                          cbuf = update q.cbuf (s % 256) (record (again el p) { contents = o });
                        })
                        (sym out.there),
                  )))
        ]

    retransmit_from-IsRetried :
        (n s : ℕ) (begins : Bool) (conns : List ChopConn) (q : TransmitQueue)
        → AllModest conns
        → q.next_to_ack ≤ s
        → s + n ≡ q.next_to_send
        → q.next_to_send < 2 ^ 32
        → ((i : ℕ) (contents : Bytes)
            → (q.cbuf i).contents ≡ some contents
            → length contents ≡ (q.cbuf i).hdr.d)
        → ((i : ℕ) → (q.cbuf i).hdr.d ≤ 65503)
        → (begins ≡ true → is_some (q.cbuf (s % 256)).contents ≡ true)
        → Ensures (IsRetried conns q s) (retransmit_from ev ec gc deliver n begins s conns q)
    unfolding retransmit_from
    retransmit_from-IsRetried zero s begins conns q modest lo hi small sizes short held = inl (
      refl,
      refl,
      refl,
      λ i contents le out. absurd (let before = out.before_send in omega arith),
    )
    retransmit_from-IsRetried (suc n) s begins conns q modest lo hi small sizes short held =
        let el = q.cbuf (s % 256) in
        let room = least_room el in
        let succ : add32 s 1 ≡ s + 1 = omega arith in
        let rest : Ensures (IsRetried conns q (s + 1))
            (retransmit_from ev ec gc deliver n false (add32 s 1) conns q) =
          rw succ (
            retransmit_from-IsRetried n (s + 1) false conns q modest (omega arith) (omega arith)
              small sizes short (λ e. absurd (cc))) in
        let further = retransmit_from ev ec gc deliver n false (add32 s 1) conns q in
        let d = whole_desired room in
        let m = whole_minimum room room in
        elim (Option-cases el.contents) [
          | inl nothing ↦
              let empty : is_some el.contents ≡ false = rw nothing refl in
              let skip : (begins || is_some el.contents) ≡ false = elim (Bool-cases begins) [
                | inl b ↦ absurd (let full = held b in cc)
                | inr b ↦ rw (b, empty) refl
              ] in
              rw skip (
                Ensures-map (IsRetried conns q (s + 1)) (IsRetried conns q s) further rest
                  (IsRetried-earlier conns q s (λ contents o. absurd (let t = o.there in cc))))
          | inr (contents, there) ↦
              let look : (begins || is_some el.contents) ≡ true = rw there (ground arith) in
              let out : IsOut q s contents = record {
                after_ack = lo;
                before_send = omega arith;
                there = there;
                fits = sizes (s % 256) contents there;
              } in
              rw look (
                Ensures-bind (IsBest d m conns) (IsRetried conns q s)
                  (pick_connection room room conns) _
                  (pick_connection-IsBest room room conns (omega (arith, short (s % 256)))
                    (AllModest-AllFair d m conns (ground arith) modest))
                  λ picked best.
                    elim (target_of-InRange d m conns picked (ground arith) modest best) [
                      | inl (nobody, silent) ↦ rw nobody (
                          Ensures-map (IsRetried conns q (s + 1)) (IsRetried conns q s) further rest
                            (IsRetried-earlier conns q s (λ contents o. silent)))
                      | inr (conn, b, target, range) ↦
                          rw target
                            (retry-IsRetried conns s q s b contents out (ground (arith, range.0)))
                    ])
        ]

    -- It returns. Either no connection offers anything for any block that is out, and nothing is done; or
    -- the block that finds a connection was sent 255 times before, and -1 is returned; or a block that is
    -- out goes out again, with its number, opcode and data and with new padding, and its count of
    -- retransmissions is one higher; nothing else in the queue is changed. This is for a reliable
    -- libevent, modules that keep to the sizes, blocks whose lengths are those in their headers and at
    -- most 65503, and a queue with a window whose front block is held.
    pub retransmit-IsRetried :
        (conns : List ChopConn) (q : TransmitQueue)
        → AllModest conns
        → IsWindow q
        → ((i : ℕ) (contents : Bytes)
            → (q.cbuf i).contents ≡ some contents
            → length contents ≡ (q.cbuf i).hdr.d)
        → ((i : ℕ) → (q.cbuf i).hdr.d ≤ 65503)
        → is_some (q.cbuf (q.next_to_ack % 256)).contents ≡ true
        → Ensures (IsRetried conns q q.next_to_ack) (retransmit ev ec gc deliver conns q)
    unfolding retransmit
    retransmit-IsRetried conns q modest w sizes short held =
        retransmit_from-IsRetried (sub32 q.next_to_send q.next_to_ack) q.next_to_ack true conns q
          modest (omega arith) (omega (arith, w.in_order, w.at_most, w.fits))
          (omega (arith, w.fits)) sizes short (λ e. held)
