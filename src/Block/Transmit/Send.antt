-- ===== src/Block/Transmit/Send.antt =====
-- What `transmit` (src/protocol/chop_blk.cc) writes, and what the receiver reads of it.
use stegotorus.Common.{
  ℕ, zero, suc, ◌≡◌, refl, ap, arith, true, List, [], ◌∷◌, ◌++◌, ◌&&◌, leb, ltb, ◌==◌, some, length,
  take, drop, Option, take_all, slice, length-slice, length-append, ◌+◌, returns, ◌%◌, ==_iff,
}
use stegotorus.Common.Evbuffer.{Bytes, Evbuffer, IsReliable}
use stegotorus.Block.Header.{BlockCipher, Header, clear_bytes, encode, decode}
use stegotorus.Block.Header.RoundTrip.{IsInverse, IsWire, decode-encode}
use stegotorus.Block.Transmit.{
  GcmEncryptor, TransmitQueue, wire_block, send_block, transmit_contents, transmit_elt, transmit,
}

take-append {ℓ} : {A : Type ℓ} (n : ℕ) (xs ys : List A) → length xs ≡ n → take n (xs ++ ys) ≡ xs
take-append zero [] ys e = refl
take-append zero (x ∷ xs) ys e = absurd (omega arith)
take-append (suc n) [] ys e = absurd (omega arith)
take-append (suc n) (x ∷ xs) ys e = ap (◌∷◌ x) (take-append n xs ys (omega arith))

drop-append {ℓ} : {A : Type ℓ} (n : ℕ) (xs ys : List A) → length xs ≡ n → drop n (xs ++ ys) ≡ ys
drop-append zero [] ys e = refl
drop-append zero (x ∷ xs) ys e = absurd (omega arith)
drop-append (suc n) [] ys e = absurd (omega arith)
drop-append (suc n) (x ∷ xs) ys e = drop-append n xs ys (omega arith)

module _ (ev : Evbuffer) (laws : IsReliable ev) (ec : BlockCipher) (gc : GcmEncryptor) where
  pub transmit_contents_lem :
      (output contents : Bytes) (h : Header)
      → length contents ≡ h.d
      → transmit_contents ev ec gc output h contents
        ≡ some (output ++ wire_block ev ec gc h contents)
  transmit_contents_lem output contents h e =
      let whole : take h.d contents ≡ contents = take_all h.d contents (omega arith) in
      let same : (length contents == h.d) ≡ true = (==_iff (length contents) h.d).1 e in
      rw
        (
          laws.copyout_lem contents h.d,
          transmit_contents,
          whole,
          same,
          laws.add_lem [] (wire_block ev ec gc h contents),
          send_block,
        )
        (laws.add_lem output (wire_block ev ec gc h contents))

  -- A block that is out is written whole.
  pub transmit-wire_block :
      (q : TransmitQueue) (seqno : ℕ) (output contents : Bytes)
      → (leb q.next_to_ack seqno && ltb seqno q.next_to_send) ≡ true
      → (q.cbuf (seqno % 256)).contents ≡ some contents
      → length contents ≡ (q.cbuf (seqno % 256)).hdr.d
      → transmit ev ec gc q seqno output
        ≡ returns (some (output ++ wire_block ev ec gc (q.cbuf (seqno % 256)).hdr contents))
  unfolding transmit transmit_elt
  transmit-wire_block q seqno output contents out there fits =
      rw (out, there, transmit_elt)
        (ap returns (transmit_contents_lem output contents (q.cbuf (seqno % 256)).hdr fits))

  -- The length of a block on the wire, with a cipher of 16 bytes and a tag of 16 bytes.
  pub length-wire_block :
      (h : Header) (contents : Bytes)
      → ((b : Bytes) → length b ≡ 16 → length (ec.encrypt b) ≡ 16)
      → ((b nonce : Bytes) → length (gc b nonce) ≡ length b + 16)
      → length (wire_block ev ec gc h contents) ≡ 32 + length contents + h.p
  length-wire_block h contents size tag =
      let sealed_head : length (encode ec h) ≡ 16 = unfold encode in size (clear_bytes h) refl in
      let sealed = contents ++ slice (λ _. 0) 0 h.p in
      omega (
        arith,
        length-append (encode ec h) (gc sealed (encode ec h)),
        sealed_head,
        tag sealed (encode ec h),
        length-append contents (slice (λ _. 0) 0 h.p),
        length-slice (λ (_ : ℕ). zero) 0 h.p,
      )

  -- Where no call of libevent fails, and with a cipher that takes 16 bytes to 16 bytes and back and a
  -- sealing that `unseal` undoes under the same nonce, a block that is out, whose bytes are as many as
  -- its header says and whose header's fields fit their types, is appended whole to the output. The
  -- receiver reads its header from its first sixteen bytes, whatever its receive window is; with those
  -- as the nonce, what follows them unseals to the data and as many zeros as the header has padding.
  pub decode-transmit :
      (unseal : Bytes → Bytes → Option Bytes) (q : TransmitQueue) (seqno f_mem window : ℕ)
      (output contents : Bytes)
      → IsInverse ec
      → ((b : Bytes) → length b ≡ 16 → length (ec.encrypt b) ≡ 16)
      → ((b nonce : Bytes) → unseal (gc b nonce) nonce ≡ some b)
      → (leb q.next_to_ack seqno && ltb seqno q.next_to_send) ≡ true
      → (q.cbuf (seqno % 256)).contents ≡ some contents
      → length contents ≡ (q.cbuf (seqno % 256)).hdr.d
      → IsWire (q.cbuf (seqno % 256)).hdr
      → (block : Bytes) × (transmit ev ec gc q seqno output ≡ returns (some (output ++ block)))
        × (decode ec f_mem (take 16 block) window ≡ (q.cbuf (seqno % 256)).hdr)
        × (unseal (drop 16 block) (take 16 block)
            ≡ some (contents ++ slice (λ _. 0) 0 (q.cbuf (seqno % 256)).hdr.p))
  unfolding transmit transmit_elt
  decode-transmit unseal q seqno f_mem window output contents inv size opens out there fits wire =
      let h : Header = (q.cbuf (seqno % 256)).hdr in
      let clear = contents ++ slice (λ _. 0) 0 h.p in
      let sealed = gc clear (encode ec h) in
      let long : length (encode ec h) ≡ 16 = unfold encode in size _ refl in
      let front = take-append 16 (encode ec h) sealed long in
      let behind = drop-append 16 (encode ec h) sealed long in
      (
        wire_block ev ec gc h contents,
        transmit-wire_block q seqno output contents out there fits,
        rw front (decode-encode ec f_mem window h inv wire),
        rw (front, behind) (opens clear (encode ec h)),
      )
