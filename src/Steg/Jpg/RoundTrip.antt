-- ===== src/Steg/Jpg/RoundTrip.antt =====
-- A message through a JPEG cover (src/steg/http_steg_mods/jpgSteg.cc).
use stegotorus.Common.{
  ℕ, zero, suc, ◌+◌, ◌-◌, ◌^◌, ◌%◌, ◌<◌, ◌≤◌, ◌≡◌, sym, ap, ◌∙◌, arith, ltb, ◌==◌, ◌&&◌, Bool-cases,
  inl, inr, true, false, Option-cases, some, [], ◌∷◌, ◌++◌, length, take, drop, length-append,
  append-nil,
}
use stegotorus.Common.Evbuffer.{Bytes}
use stegotorus.Steg.Memory.{gives, max_msg_buf_size, to_memory, from_memory}
use stegotorus.Steg.Memory.Places.{
  get_or_default, length-to_memory, from_memory-to_memory, written, length-written, get_or-written,
  stored, store-stored, read-number, read-message,
}
use stegotorus.Steg.Jpg.{
  frame, frame_scan, scan_marker, frame_length, starting_point, static_headless_capacity, encode,
  decode,
}

-- The marker is found again where it and what is before it are kept.
scan_marker-take :
    (buf : Bytes) (lm n : ℕ) (r : Bytes)
    → scan_marker buf ≡ some lm
    → lm + 2 ≤ n
    → n ≤ length buf
    → scan_marker (take n buf ++ r) ≡ some lm
unfolding scan_marker
scan_marker-take [] lm n r h l m = absurd (cc)
scan_marker-take (b ∷ []) lm n r h l m = absurd (cc)
scan_marker-take (b ∷ b' ∷ bs) lm zero r h l m = absurd (omega arith)
scan_marker-take (b ∷ b' ∷ bs) lm (suc zero) r h l m = absurd (omega arith)
scan_marker-take (b ∷ b' ∷ bs) lm (suc (suc n)) r h l m =
    elim (Bool-cases (b == frame && b' == frame_scan)) [
      | inl here ↦ let h' = rw (here, scan_marker) at h in rw (here, scan_marker) h'
      | inr later ↦ elim (Option-cases (scan_marker (b' ∷ bs))) [
        | inl nothing ↦ absurd (let h' = rw (later, scan_marker, nothing) at h in cc)
        | inr (j, e) ↦
            let h' = rw (later, scan_marker, e) at h in
            let next : suc j ≡ lm = cc in
            let again = scan_marker-take (b' ∷ bs) j (suc n) r e (omega arith) (omega arith) in
            rw (later, scan_marker, again) h'
      ]
    ]

starting_point-cases :
    (past : ℕ → ℕ) (buf : Bytes) (from lm : ℕ)
    → starting_point past buf ≡ some from
    → scan_marker buf ≡ some lm
    → (0 < lm) × (from ≡ lm + 2 + frame_length past buf lm) × (from + 6 ≤ length buf)
unfolding starting_point
starting_point-cases past buf from zero h e = absurd (let h' = rw (e, starting_point) at h in cc)
starting_point-cases past buf from (suc i) h e =
    elim (Bool-cases (ltb (length buf) (suc i + 2 + frame_length past buf (suc i) + 6))) [
      | inl no_room ↦ absurd (let h' = rw (e, starting_point, no_room) at h in cc)
      | inr room ↦
          let h' = rw (e, starting_point, room) at h in
          let same : suc i + 2 + frame_length past buf (suc i) ≡ from = cc in
          (omega arith, sym same, ground arith)
    ]

starting_point-back :
    (past : ℕ → ℕ) (buf : Bytes) (from lm : ℕ)
    → scan_marker buf ≡ some lm
    → 0 < lm
    → from ≡ lm + 2 + frame_length past buf lm
    → from + 6 ≤ length buf
    → starting_point past buf ≡ some from
unfolding starting_point
starting_point-back past buf from zero e pos h l = absurd (omega arith)
starting_point-back past buf from (suc i) e pos h l =
    let room : ltb (length buf) (suc i + 2 + frame_length past buf (suc i) + 6) ≡ false =
      ground arith in
    rw (e, starting_point, room) (ap some (sym h))

starting_point-written :
    (past past' : ℕ → ℕ) (buf : Bytes) (from lm : ℕ) (bytes : Bytes)
    → starting_point past buf ≡ some from
    → scan_marker buf ≡ some lm
    → lm + 4 ≤ from
    → from + length bytes ≤ length buf
    → starting_point past' (written buf from bytes) ≡ some from
starting_point-written past past' buf from lm bytes h e l m =
    let (pos, same, room) = starting_point-cases past buf from lm h e in
    let two = get_or-written buf from bytes (lm + 2) (past' (lm + 2)) (omega arith) (omega arith) in
    let three =
      get_or-written buf from bytes (lm + 3) (past' (lm + 3)) (omega arith) (omega arith) in
    let two' = get_or_default buf (lm + 2) (past' (lm + 2)) (past (lm + 2)) (omega arith) in
    let three' = get_or_default buf (lm + 3) (past' (lm + 3)) (past (lm + 3)) (omega arith) in
    starting_point-back past' (written buf from bytes) from lm
      (scan_marker-take buf lm from (bytes ++ drop (from + length bytes) buf) e (omega arith)
        (omega arith))
      pos (rw (two, three, two', three') same) (omega (arith, length-written buf from bytes m))

-- A message that the capacity of a cover allows, of less than c_MAX_MSG_BUF_SIZE bytes, is hidden in
-- the cover, which keeps its length, and is read back from it, where the length in the header of the
-- scan counts at least its own two bytes.
pub jpg-decode-encode :
    (past past' : ℕ → ℕ) (message cover : Bytes) (from lm : ℕ)
    → starting_point past cover ≡ some from
    → scan_marker cover ≡ some lm
    → 2 ≤ frame_length past cover lm
    → length message < max_msg_buf_size
    → length message ≤ static_headless_capacity past cover
    → (out : Bytes) × (encode past message cover ≡ gives out)
      × (length out ≡ length cover)
      × (decode past' out ≡ gives message)
unfolding encode decode static_headless_capacity
jpg-decode-encode past past' message cover from lm start marker frame2 short room =
    let n = length message in
    let (pos, same, long) = starting_point-cases past cover from lm start marker in
    let room' : n ≤ length cover - from - 2 - 4 = rw (start, static_headless_capacity) at room in
    let fits : from + 4 + n ≤ length cover = omega arith in
    let cap : ltb (static_headless_capacity past cover) n ≡ false = ground arith in
    let small : ltb n max_msg_buf_size ≡ true = ground arith in
    let value : from_memory 4 (to_memory 4 n) ≡ n =
      ap (from_memory 4) (sym (append-nil (to_memory 4 n)))
      ∙ from_memory-to_memory 4 n [] (omega arith) in
    let word : n % 2 ^ 32 ≡ n = omega arith in
    let not_big : ltb max_msg_buf_size n ≡ false = ground arith in
    let k = length-append (to_memory 4 n) message in
    let k' = length-to_memory 4 n in
    let start' =
      starting_point-written past past' cover from lm (to_memory 4 n ++ message) start marker
        (omega arith) (omega arith) in
    (
      stored 4 n message cover from,
      rw (small, cap, start, encode) (store-stored 4 n message cover from fits),
      length-written cover from (to_memory 4 n ++ message) (omega arith),
      rw (start', decode, read-number 4 n message cover from fits, value, word, not_big)
          (read-message 4 n message cover from fits),
    )
