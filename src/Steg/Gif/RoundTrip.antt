-- ===== src/Steg/Gif/RoundTrip.antt =====
-- A message through a GIF cover (src/steg/http_steg_mods/gifSteg.cc).
use stegotorus.Common.{
  ℕ, zero, suc, ◌+◌, ◌<◌, ◌≤◌, ◌≡◌, refl, sym, ap, ◌∙◌, arith, ltb, ◌==◌, Bool-cases, inl, inr,
  true, false, Option, Option-cases, some, [], ◌∷◌, ◌++◌, length, take, drop, length-append,
  length-drop, append-nil,
}
use stegotorus.Common.Evbuffer.{Bytes}
use stegotorus.Steg.Memory.{gives, behind, max_msg_buf_size, to_memory, from_memory}
use stegotorus.Steg.Memory.Places.{
  length-to_memory, from_memory-to_memory, written, length-written, stored, store-stored,
  store-behind, read-number, read-message,
}
use stegotorus.Steg.Gif.{
  image_block_sentinel, sentinel_end, starting_point, static_headless_capacity, encode, decode,
}

-- What stands before the place decides where it is.
sentinel_end-take :
    (buf : Bytes) (from : ℕ)
    → sentinel_end buf ≡ some from
    → (0 < from)
      × (from < length buf)
      × ((c : ℕ) (r : Bytes) → sentinel_end (take from buf ++ (c ∷ r)) ≡ some from)
unfolding sentinel_end
sentinel_end-take [] from h = absurd (cc)
sentinel_end-take (b ∷ []) from h = absurd (cc)
sentinel_end-take (b ∷ b' ∷ bs) from h = elim (Bool-cases (b == image_block_sentinel)) [
  | inl here ↦
      let h' : some 1 ≡ some from = rw (here, sentinel_end) at h in
      let one : from ≡ suc 0 = cc in
      (omega arith, omega arith, λ c r. rw (one, here, sentinel_end) refl)
  | inr later ↦ elim (Option-cases (sentinel_end (b' ∷ bs))) [
    | inl nothing ↦ absurd (let h' = rw (later, sentinel_end, nothing) at h in cc)
    | inr (zero, e) ↦ absurd (omega (arith, (sentinel_end-take (b' ∷ bs) zero e).0))
    | inr (suc j, e) ↦
        let h' = rw (later, sentinel_end, e) at h in
        let next : from ≡ suc (suc j) = cc in
        let (pos, short, again) = sentinel_end-take (b' ∷ bs) (suc j) e in
        (omega arith, omega arith, λ c r. rw (next, later, sentinel_end, again c r) refl)
  ]
]

nonempty-cons : (xs : Bytes) → 0 < length xs → (c : ℕ) × (r : Bytes) × (xs ≡ c ∷ r)
nonempty-cons [] l = absurd (omega arith)
nonempty-cons (c ∷ r) l = (c, r, refl)

nonempty_start :
    (beyond : Option ℕ) (buf : Bytes) (from : ℕ)
    → sentinel_end buf ≡ some from
    → starting_point beyond buf ≡ some from
unfolding starting_point sentinel_end
nonempty_start beyond [] from h = absurd (cc)
nonempty_start beyond (b ∷ bs) from h = h

starting_point-written :
    (beyond beyond' : Option ℕ) (buf : Bytes) (from : ℕ) (bytes : Bytes)
    → starting_point beyond buf ≡ some from
    → 0 < length buf
    → from + length bytes ≤ length buf
    → starting_point beyond' (written buf from bytes) ≡ some from
unfolding starting_point
starting_point-written beyond beyond' [] from bytes h l m = absurd (omega arith)
starting_point-written beyond beyond' (b ∷ bs) from bytes h l m =
    let (pos, short, again) = sentinel_end-take (b ∷ bs) from h in
    let tail = bytes ++ drop (from + length bytes) (b ∷ bs) in
    let long : 0 < length tail = omega (
      arith,
      length-append bytes (drop (from + length bytes) (b ∷ bs)),
      length-drop (from + length bytes) (b ∷ bs),
    ) in
    let (c, r, e) = nonempty-cons tail long in
    let found : sentinel_end (take from (b ∷ bs) ++ tail) ≡ some from = rw e (again c r) in
    nonempty_start beyond' (take from (b ∷ bs) ++ tail) from found

-- A message of less than c_MAX_MSG_BUF_SIZE bytes that the capacity of a cover allows, in a cover with a
-- comma before its last byte: where a length of eight bytes and the message fit behind the comma, the
-- cover keeps its length, and the message is read back from it; where they do not, `encode` writes
-- behind the end of the cover.
pub gif-decode-encode :
    (beyond beyond' : Option ℕ) (message cover : Bytes) (from : ℕ)
    → starting_point beyond cover ≡ some from
    → 0 < length cover
    → length message < max_msg_buf_size
    → length message ≤ static_headless_capacity cover
    → (from + 8 + length message ≤ length cover
        → (out : Bytes) × (encode beyond message cover ≡ gives out)
          × (length out ≡ length cover)
          × (decode beyond' out ≡ gives message))
      × (length cover < from + 8 + length message → encode beyond message cover ≡ behind)
unfolding encode decode
gif-decode-encode beyond beyond' message cover from start nonempty short room =
    let n = length message in
    let cap : ltb (static_headless_capacity cover) n ≡ false = ground arith in
    let small : ltb n max_msg_buf_size ≡ true = ground arith in
    let value : from_memory 8 (to_memory 8 n) ≡ n =
      ap (from_memory 8) (sym (append-nil (to_memory 8 n)))
      ∙ from_memory-to_memory 8 n [] (omega arith) in
    (
      λ fits.
          let out = stored 8 n message cover from in
          let k = length-append (to_memory 8 n) message in
          let k' = length-to_memory 8 n in
          let start' =
            starting_point-written beyond beyond' cover from (to_memory 8 n ++ message) start
              nonempty (omega arith) in
          (
            out,
            rw (cap, start, encode) (store-stored 8 n message cover from fits),
            length-written cover from (to_memory 8 n ++ message) (omega arith),
            rw (start', decode, read-number 8 n message cover from fits, value, small)
                (read-message 8 n message cover from fits),
          ),
      λ over. rw (cap, start, encode) (store-behind 8 n message cover from (omega arith) over),
    )
