-- ===== src/Chop/Send/Ends.antt =====
-- The loop in `send` of src/protocol/chop.cc comes to an end.
use stegotorus.Common.{
  ℕ, zero, suc, ◌+◌, ◌-◌, ◌^◌, ◌<◌, ◌≤◌, ◌≡◌, ◌⊎◌, inl, inr, refl, ap, ◌∙◌, arith, Bool, true,
  false, not, ◌&&◌, ltb, leb, Bool-cases, List, [], ◌∷◌, length, drop, length-drop, Ensures,
  Ensures-bind, Ensures-map,
}
use stegotorus.Common.Evbuffer.{Bytes, Evbuffer, IsReliable}
use stegotorus.Block.Header.{BlockCipher}
use stegotorus.Block.Transmit.{GcmEncryptor, full}
use stegotorus.Block.Transmit.Discard.{IsWindow}
use stegotorus.Chop.{ChopConn, shake, section_len, min_block_size, max_block_size}
use stegotorus.Chop.Pick.{whole_desired, whole_minimum, pick_connection}
use stegotorus.Chop.Pick.Best.{Silent, IsBest, pick_connection-IsBest}
use stegotorus.Chop.Send.{
  ChopCircuit, Sending, split_block, send_block_to, send_sized, send_targeted,
}
use stegotorus.Chop.Send.Sizes.{split_block_bounds}
use stegotorus.Chop.Send.Sent.{send_sized-IsSent}
use stegotorus.Chop.Send.Loop.{
  SendEnd, send_loop, AllModest, AllModest-AllFair, InRange, target_of-InRange,
}

-- One block: it is sent, or the queue is full.
record Advanced (c : ChopCircuit) (payload : Bytes) (s : Sending) : Type 0 where
  went : s.ok ≡ true
  cut : (d : ℕ) × (s.left ≡ drop d payload) × (0 < length payload → 0 < d)
  next_window : IsWindow s.circuit.tx_queue
  next_number : s.circuit.tx_queue.next_to_send ≡ c.tx_queue.next_to_send + 1
  next_overwrite : s.circuit.tx_queue.overwrite_allowed ≡ c.tx_queue.overwrite_allowed

abbrev Stuck : ChopCircuit → Bytes → Sending → Type 0
Stuck c payload s = (s.ok ≡ false) × (s.left ≡ payload) × (s.circuit ≡ c) × (full c.tx_queue ≡ true)

drop-drop : (j k : ℕ) (xs : Bytes) → (n : ℕ) × (drop j (drop k xs) ≡ drop n xs)
drop-drop j zero xs = (j, refl)
drop-drop zero (suc k) [] = (0, refl)
drop-drop (suc j) (suc k) [] = (0, refl)
drop-drop j (suc k) (x ∷ xs) = let (n, e) = drop-drop j k xs in (suc n, e)

-- How the loop ends: with an end of the payload left, since no connection offered anything for it,
-- with nothing left, or with a full queue.
pub record HasEnded (conns : ℕ → List ChopConn) (payload : Bytes) (e : SendEnd) : Type 0 where
  pub suffix : (k : ℕ) × (e.left ≡ drop k payload)
  pub window : IsWindow e.circuit.tx_queue
  pub reason :
      ((e.ok ≡ true)
        × (e.no_target_connection ≡ true)
        × (k : ℕ) × Silent
            (whole_desired (length e.left))
            (whole_minimum (length e.left) 0)
            (conns k))
      ⊎ ((e.ok ≡ true) × (e.left ≡ []))
      ⊎ ((e.ok ≡ false) × (full e.circuit.tx_queue ≡ true))

later :
    (conns : ℕ → List ChopConn) (payload left : Bytes) (k : ℕ)
    → left ≡ drop k payload
    → (e : SendEnd) → HasEnded conns left e
    → HasEnded conns payload e
later conns payload left k cut e h =
    let (j, rest) = h.suffix in
    let (n, both) = drop-drop j k payload in
    record { suffix = (n, rest ∙ ap (drop j) cut ∙ both); window = h.window; reason = h.reason }

module _ (ev : Evbuffer) (ec : BlockCipher) (gc : GcmEncryptor) (deliver : Bytes → Bool)
    (laws : IsReliable ev) (size : (b : Bytes) → length b ≡ 16 → length (ec.encrypt b) ≡ 16)
    (tag : (b nonce : Bytes) → length (gc b nonce) ≡ length b + 16)
    (sends : (b : Bytes) → deliver b ≡ true) where
  send_targeted-Stuck :
      (conn : ChopConn) (blocksize : ℕ) (payload : Bytes) (c : ChopCircuit)
      → full c.tx_queue ≡ true
      → min_block_size + shake conn ≤ blocksize
      → blocksize ≤ max_block_size + shake conn
      → blocksize ≤ min_block_size + shake conn + length payload + section_len
      → Ensures (Stuck c payload) (send_targeted ev ec gc deliver conn blocksize payload c)
  unfolding send_sized send_block_to
  send_targeted-Stuck conn blocksize payload c busy lo hi pad =
      let lowest = min_block_size + shake conn in
      let rest = blocksize - lowest in
      let s = split_block rest (length payload) (c.upstream_eof && not c.sent_fin) in
      let bounds =
        split_block_bounds rest (length payload) (c.upstream_eof && not c.sent_fin) (omega arith)
          (omega arith) in
      let in_range : (leb lowest blocksize && leb blocksize (max_block_size + shake conn)) ≡ true =
        ground arith in
      let fits_d : leb s.0 section_len ≡ true = ground (arith, bounds.1) in
      let fits_p : leb (rest - s.0) section_len ≡ true = ground (arith, bounds.3) in
      rw (in_range, fits_d, fits_p, busy) (refl, refl, refl, busy)

  send_targeted-Advanced :
      (conn : ChopConn) (blocksize : ℕ) (payload : Bytes) (c : ChopCircuit)
      → IsWindow c.tx_queue
      → c.tx_queue.next_to_send + 257 < 2 ^ 32
      → c.tx_queue.overwrite_allowed ≡ false
      → InRange (whole_desired (length payload)) (whole_minimum (length payload) 0) conn blocksize
      → Ensures
          (λ (s : Sending). Advanced c payload s ⊎ Stuck c payload s)
          (send_targeted ev ec gc deliver conn blocksize payload c)
  send_targeted-Advanced conn blocksize payload c w small strict (lo, hi, most) =
      elim (Bool-cases (full c.tx_queue)) [
        | inl busy ↦
            Ensures-map (Stuck c payload)
              (λ (s : Sending). Advanced c payload s ⊎ Stuck c payload s)
              (send_targeted ev ec gc deliver conn blocksize payload c)
              (send_targeted-Stuck conn blocksize payload c busy (ground arith) (omega arith)
                (ground arith))
              (λ s h. inr h)
        | inr free ↦
            (let (r, e, sent, whole) =
                send_sized-IsSent ev ec gc deliver 1 2 blocksize conn payload c laws size tag sends
                  w small (ground (arith, w.in_order, w.at_most, w.fits)) refl refl (ground arith)
                  (omega arith) (ground arith) in
              rw e (
                inl (record {
                  went = sent.success;
                  cut = (
                    (split_block (blocksize - (min_block_size + shake conn)) (length payload)
                        (c.upstream_eof && not c.sent_fin)).0,
                    sent.taken,
                    λ pos. ground arith,
                  );
                  next_window = sent.window;
                  next_number = sent.numbered;
                  next_overwrite = sent.same_overwrite;
                })))
      ]

  empty_left : (xs : Bytes) → ltb 0 (length xs) ≡ false → xs ≡ []
  empty_left [] h = refl
  empty_left (x ∷ xs) h = absurd (ground arith)

  -- With more rounds than there are bytes, the loop returns. What is left is an end of the payload, and
  -- the loop stopped because no connection of a round offered anything for it, with nothing left, or
  -- because the queue is full. This is for a reliable libevent, a cipher of 16 bytes with a tag of 16
  -- bytes, connections that take their blocks, steganography modules that keep to the sizes, and a queue
  -- with a window that allows no overwriting, with room for as many sequence numbers as there are bytes.
  pub send_loop-HasEnded :
      (rounds : ℕ) (conns : ℕ → List ChopConn) (payload : Bytes) (c : ChopCircuit)
      → length payload < rounds
      → IsWindow c.tx_queue
      → c.tx_queue.next_to_send + length payload + 257 < 2 ^ 32
      → c.tx_queue.overwrite_allowed ≡ false
      → ((i : ℕ) → AllModest (conns i))
      → Ensures (HasEnded conns payload) (send_loop ev ec gc deliver rounds conns payload c)
  unfolding send_loop pick_connection
  send_loop-HasEnded zero conns payload c enough w small strict modest = absurd (omega arith)
  send_loop-HasEnded (suc rounds) conns payload c enough w small strict modest =
      let d = whole_desired (length payload) in
      let m = whole_minimum (length payload) 0 in
      let cs = conns rounds in
      Ensures-bind (IsBest d m cs) (HasEnded conns payload) (pick_connection (length payload) 0 cs)
        _
        (pick_connection-IsBest (length payload) 0 cs (omega arith)
          (AllModest-AllFair d m cs (ground arith) (modest rounds)))
        λ picked best. elim (target_of-InRange d m cs picked (ground arith) (modest rounds) best) [
          | inl (nobody, silent) ↦
              rw nobody (record {
                suffix = (0, refl);
                window = w;
                reason = inl (refl, refl, rounds, silent);
              })
          | inr (conn, b, target, fits) ↦ rw target (
              Ensures-bind (λ (s : Sending). Advanced c payload s ⊎ Stuck c payload s)
                (HasEnded conns payload) (send_targeted ev ec gc deliver conn b payload c) _
                (send_targeted-Advanced conn b payload c w (omega arith) strict fits)
                λ s h. elim h [
                  | inr (off, left, same, busy) ↦ rw (off) (record {
                    suffix = (0, left);
                    window = rw same w;
                    reason = inr (inr (off, rw same busy));
                  })
                  | inl sent ↦
                      (let (k, cut, forward) = sent.cut in
                        let shorter : length s.left ≡ length payload - k =
                          rw cut (length-drop k payload) in
                        elim (Bool-cases (ltb 0 (length s.left))) [
                          | inr none_left ↦
                              rw (sent.went, none_left)
                                (record {
                                  suffix = (k, cut);
                                  window = sent.next_window;
                                  reason = inr (inl (sent.went, empty_left s.left none_left));
                                })
                          | inl more ↦
                              (let pos : 0 < k = forward (ground arith) in
                                rw (sent.went, more)
                                  (Ensures-map (HasEnded conns s.left) (HasEnded conns payload)
                                    (send_loop ev ec gc deliver rounds conns s.left s.circuit)
                                    (send_loop-HasEnded rounds conns s.left s.circuit (ground arith)
                                      sent.next_window (ground (arith, sent.next_number))
                                      (sent.next_overwrite ∙ strict) modest)
                                    (later conns payload s.left k cut)))
                        ])
                ])
        ]
