-- ===== src/Steg/Png/RoundTrip.antt =====
-- A message through a PNG cover (src/steg/http_steg_mods/pngSteg.cc).
use stegotorus.Common.{
  ℕ, zero, suc, ◌+◌, ◌-◌, ◌<◌, ◌≤◌, ◌≡◌, refl, sym, ap, ◌∙◌, arith, ltb, leb, Bool-cases, inl, inr,
  true, false, if◌then◌else◌, Option, Option-cases, none, some, [], ◌++◌, length, take_all,
  length-append, append-nil,
}
use stegotorus.Common.Evbuffer.{Bytes}
use stegotorus.Steg.Memory.{
  Run, gives, fails, asserts, behind, overflows, max_msg_buf_size, to_memory, from_memory, ◌then◌,
}
use stegotorus.Steg.Memory.Places.{
  length-to_memory, from_memory-to_memory, written, write-written, length-written, get_or-written,
  get_or_default, stored, read-number, read-message,
}
use stegotorus.Steg.Png.{
  PngChunkData, no_chunk, byte, compute_length, is_idat, idat_from, get_next_idat_chunk,
  first_chunk, static_headless_capacity, fill, encode, decode,
}

abbrev at : ℕ → ℕ → PngChunkData
at o len = record { chunk_offset = some o; chunk_length = len }

abbrev offset_of : Run PngChunkData → Option ℕ
offset_of (gives c) = c.chunk_offset
offset_of fails = none
offset_of asserts = none
offset_of behind = none
offset_of overflows = none

nothing_there : (r : Run PngChunkData) (o l : ℕ) → offset_of r ≡ none → r ≡ gives (at o l) → ⊥
nothing_there r o l n h = let e : none ≡ some o = sym n ∙ ap offset_of h in cc

there : (p len o l : ℕ) → gives (at p len) ≡ gives (at o l) → p ≡ o
there p len o l h = let e : some p ≡ some o = ap offset_of h in cc

-- The search goes forward.
module _ (past : ℕ → ℕ) (cover : Bytes) where
  idat_from_order :
      (rounds p len o l : ℕ) → idat_from past cover rounds p len ≡ gives (at o l) → p ≤ o
  unfolding idat_from
  idat_from_order zero p len o l h = absurd (nothing_there (gives no_chunk) o l refl h)
  idat_from_order (suc rounds) p len o l h = elim (Bool-cases (leb (length cover) p)) [
    | inl ended ↦ let h' = rw ended at h in omega (arith, there p len o l h')
    | inr inside ↦ elim (Bool-cases (is_idat past cover p)) [
      | inl idat ↦ let h' = rw (inside, idat) at h in omega (arith, there p len o l h')
      | inr other ↦ elim (Bool-cases (ltb (length cover) (p + len + 12))) [
        | inl beyond ↦
            let h' = rw (inside, other, beyond) at h in
            absurd (nothing_there (gives no_chunk) o l refl h')
        | inr fits ↦ elim (Option-cases (compute_length past cover (p + len + 12))) [
          | inl negative ↦
              let h' = rw (inside, other, fits, negative) at h in
              absurd (nothing_there overflows o l refl h')
          | inr (next, e) ↦
              let h' = rw (inside, other, fits, e) at h in
              omega (arith, idat_from_order rounds (p + len + 12) next o l h')
        ]
      ]
    ]
  ]

-- A second cover of the same length that has the same bytes before a place.
module _ (past past' : ℕ → ℕ) (cover cover' : Bytes) (limit : ℕ)
    (same_length : length cover' ≡ length cover)
    (agree : (i : ℕ) → i < limit → byte past' cover' i ≡ byte past cover i) where
  compute_length-agree :
      (o : ℕ) → o + 4 ≤ limit → compute_length past' cover' o ≡ compute_length past cover o
  unfolding compute_length
  compute_length-agree o l =
      rw
        (
          agree o (omega arith),
          agree (o + 1) (omega arith),
          agree (o + 2) (omega arith),
          agree (o + 3) (omega arith),
        )
        refl

  is_idat-agree : (o : ℕ) → o + 8 ≤ limit → is_idat past' cover' o ≡ is_idat past cover o
  is_idat-agree o l =
      rw
        (
          agree (o + 4) (omega arith),
          agree (o + 5) (omega arith),
          agree (o + 6) (omega arith),
          agree (o + 7) (omega arith),
        )
        refl

  idat_from-agree :
      (rounds p len o l : ℕ)
      → idat_from past cover rounds p len ≡ gives (at o l)
      → o + 8 ≤ limit
      → idat_from past' cover' rounds p len ≡ gives (at o l)
  unfolding idat_from
  idat_from-agree zero p len o l h b = h
  idat_from-agree (suc rounds) p len o l h b =
      let before = idat_from_order past cover (suc rounds) p len o l h in
      let idat' = is_idat-agree p (omega arith) in
      elim (Bool-cases (leb (length cover) p)) [
        | inl ended ↦ let h' = rw ended at h in rw (same_length, ended) h'
        | inr inside ↦ elim (Bool-cases (is_idat past cover p)) [
          | inl idat ↦ let h' = rw (inside, idat) at h in rw (same_length, inside, idat', idat) h'
          | inr other ↦ elim (Bool-cases (ltb (length cover) (p + len + 12))) [
            | inl beyond ↦
                let h' = rw (inside, other, beyond) at h in
                absurd (nothing_there (gives no_chunk) o l refl h')
            | inr fits ↦ elim (Option-cases (compute_length past cover (p + len + 12))) [
              | inl negative ↦
                  let h' = rw (inside, other, fits, negative) at h in
                  absurd (nothing_there overflows o l refl h')
              | inr (next, e) ↦
                  let h' = rw (inside, other, fits, e) at h in
                  let before' = idat_from_order past cover rounds (p + len + 12) next o l h' in
                  let e' = compute_length-agree (p + len + 12) (omega arith) in
                  rw (same_length, inside, idat', other, fits, e', e)
                    (idat_from-agree rounds (p + len + 12) next o l h' b)
            ]
          ]
        ]
      ]

  get_next-agree :
      (p len o l : ℕ)
      → get_next_idat_chunk past cover p len ≡ gives (at o l)
      → o + 8 ≤ limit
      → (p + len + 12 ≤ o) × (get_next_idat_chunk past' cover' p len ≡ gives (at o l))
  unfolding get_next_idat_chunk
  get_next-agree p len o l h b = elim (Bool-cases (ltb (length cover) (p + len + 12))) [
    | inl beyond ↦ let h' = rw beyond at h in absurd (nothing_there (gives no_chunk) o l refl h')
    | inr fits ↦ elim (Option-cases (compute_length past cover (p + len + 12))) [
      | inl negative ↦
          let h' = rw (fits, negative) at h in absurd (nothing_there overflows o l refl h')
      | inr (next, e) ↦ elim (Bool-cases (ltb (length cover) (p + len + 12 + next + 12))) [
        | inl beyond ↦
            let h' = rw (fits, e, beyond) at h in
            absurd (nothing_there (gives no_chunk) o l refl h')
        | inr fits' ↦
            let h' = rw (fits, e, fits') at h in
            let before = idat_from_order past cover (length cover + 1) (p + len + 12) next o l h' in
            let e' = compute_length-agree (p + len + 12) (omega arith) in
            (
              before,
              rw (same_length, fits, e', e, same_length, fits')
                  (idat_from-agree (length cover + 1) (p + len + 12) next o l h' b),
            )
      ]
    ]
  ]

  first_chunk-agree :
      (o l : ℕ)
      → first_chunk past cover ≡ gives (at o l)
      → o + 8 ≤ limit
      → 12 ≤ limit
      → (12 ≤ o) × (first_chunk past' cover' ≡ gives (at o l))
  unfolding first_chunk
  first_chunk-agree o l h b b' = elim (Option-cases (compute_length past cover 8)) [
    | inl negative ↦
        let h' = rw (negative, first_chunk) at h in absurd (nothing_there overflows o l refl h')
    | inr (len, e) ↦
        let h' = rw (e, first_chunk) at h in
        let e' = compute_length-agree 8 (omega arith) in
        let both = get_next-agree 8 len o l h' b in
        (omega (arith, both.0), rw (e', e, first_chunk) both.1)
  ]

fill_lem :
    (past : ℕ → ℕ) (cover : Bytes) (o len : ℕ) (data1 : Bytes)
    → o + 8 + len ≤ length cover
    → length data1 ≤ len
    → fill past cover o len data1 ≡ gives (written cover (o + 8) data1)
fill_lem past cover o len data1 inside room =
    let whole : ltb len (length data1) ≡ false = ground arith in
    rw (take_all len data1 room, write-written cover (o + 8) data1 (omega arith), whole) refl

-- A message of at most c_MAX_MSG_BUF_SIZE bytes that fits, with its length of four bytes, into the first IDAT chunk
-- of a cover, which is found and lies inside it: the capacity is the rest of that chunk, the message is hidden in
-- the chunk, the cover keeps its length, and the message is read back from it, whatever memory stands behind.
pub png-decode-encode :
    (past past' : ℕ → ℕ) (message cover : Bytes) (o len : ℕ)
    → first_chunk past cover ≡ gives (at o len)
    → o + 8 + len ≤ length cover
    → length message + 4 ≤ len
    → length message ≤ max_msg_buf_size
    → (static_headless_capacity past cover ≡ gives (len - 4))
      × ((out : Bytes) × (encode past cover message ≡ gives out)
          × (length out ≡ length cover)
          × (decode past' out ≡ gives message))
unfolding encode decode static_headless_capacity
png-decode-encode past past' message cover o len chunk inside room short =
    let n = length message in
    let data1 = to_memory 4 n ++ message in
    let k = length-append (to_memory 4 n) message in
    let k' = length-to_memory 4 n in
    let out = stored 4 n message cover (o + 8) in
    let fits : o + 8 + 4 + n ≤ length cover = omega arith in
    let long = length-written cover (o + 8) data1 (omega arith) in
    let start =
      (first_chunk-agree past past cover cover (o + 12) refl (λ i l. refl) o len chunk (omega arith)
        (omega arith)).0 in
    let same : (i : ℕ) → i < o + 8 → byte past' out i ≡ byte past cover i = λ i l.
      get_or-written cover (o + 8) data1 i (past' i) l (omega arith)
      ∙ get_or_default cover i (past' i) (past i) (omega arith) in
    let chunk' =
      (first_chunk-agree past past' cover out (o + 8) long same o len chunk (omega arith)
        (omega arith)).1 in
    let value : from_memory 4 (to_memory 4 n) ≡ n =
      ap (from_memory 4) (sym (append-nil (to_memory 4 n)))
      ∙ from_memory-to_memory 4 n [] (omega arith) in
    let small : ltb max_msg_buf_size n ≡ false = ground arith in
    let wide : ltb len 4 ≡ false = ground arith in
    let enough : ltb (len - 4) n ≡ false = ground arith in
    let all : leb n (len - 4) ≡ true = ground arith in
    let some_cover : leb (length cover) 0 ≡ false = ground arith in
    let room' : (if leb len 4 then 0 else len - 4) ≡ len - 4 = ground arith in
    (
      rw (some_cover, chunk) (ap gives room'),
      (
        out,
        rw (small, chunk) (fill_lem past cover o len data1 inside (omega arith)),
        long,
        rw
            (
              chunk',
              wide,
              read-number 4 n message cover (o + 8) fits,
              value,
              small,
              all,
              read-message 4 n message cover (o + 8) fits,
              enough,
            )
            refl,
      ),
    )
