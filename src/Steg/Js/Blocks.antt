-- ===== src/Steg/Js/Blocks.antt =====
-- What `decode_single_js_block` reads of what `encode_in_single_js_block` writes
-- (src/steg/http_steg_mods/jsSteg.cc).
use stegotorus.Common.{
  ℕ, zero, suc, ◌+◌, ◌<◌, ◌≤◌, ◌≡◌, inl, inr, refl, sym, ap, ◌∙◌, arith, Bool, true, false, ltb,
  Option-cases, none, some, [], ◌∷◌, ◌++◌, map, length, take, drop, All,
}
use stegotorus.Common.Evbuffer.{Bytes}
use stegotorus.Steg.Js.{isxdigit, delimiter, head_or, offset2hex}
use stegotorus.Steg.Js.Block.{
  count_from, replaced, Encoded, finish, encode_from, has_delimiter, decode_from,
}
use stegotorus.Steg.Js.Similar.{AllNear, Embedded, Embedded-AllNear, replaced-Near}
use stegotorus.Steg.Js.Search.{HexAt}
use stegotorus.Steg.Js.Offset.{offset2hex-HexAt, offset2hex-Embedded}

abbrev pub AllHex : Bytes → Type 0
AllHex = All (λ d. isxdigit d ≡ true)

-- The output up to a digit of the data.
abbrev pub with_digit : ℕ → ℕ → Bytes → Bytes → Bytes
with_digit i d template rest = map replaced (take i template) ++ d ∷ rest

with_digit-Embedded :
    (i d : ℕ) (ts es : Bytes)
    → HexAt i ts
    → isxdigit d ≡ true
    → AllNear (drop (i + 1) ts) es
    → Embedded i ts (with_digit i d ts es)
with_digit-Embedded i d [] es at_i hex n = absurd at_i
with_digit-Embedded zero d (t ∷ ts) es at_i hex n = (at_i, hex, n)
with_digit-Embedded (suc i) d (t ∷ ts) es at_i hex n =
    let z : suc i + 1 ≡ suc (i + 1) = omega arith in
    (refl, with_digit-Embedded i d ts es at_i hex (rw z at n))

has_delimiter-with_digit :
    (i d : ℕ) (ts es : Bytes) → HexAt i ts → has_delimiter (take i (with_digit i d ts es)) ≡ false
unfolding has_delimiter
has_delimiter-with_digit i d [] es at_i = absurd at_i
has_delimiter-with_digit zero d (t ∷ ts) es at_i = refl
has_delimiter-with_digit (suc i) d (t ∷ ts) es at_i =
    ground (arith, has_delimiter-with_digit i d ts es at_i)

drop-with_digit : (i d : ℕ) (ts es : Bytes) → HexAt i ts → drop i (with_digit i d ts es) ≡ d ∷ es
drop-with_digit i d [] es at_i = absurd at_i
drop-with_digit zero d (t ∷ ts) es at_i = refl
drop-with_digit (suc i) d (t ∷ ts) es at_i = drop-with_digit i d ts es at_i

rest-with_digit : (i d : ℕ) (ts es : Bytes) → HexAt i ts → drop (i + 1) (with_digit i d ts es) ≡ es
rest-with_digit i d [] es at_i = absurd at_i
rest-with_digit zero d (t ∷ ts) es at_i = refl
rest-with_digit (suc i) d (t ∷ ts) es at_i =
    let z : suc i + 1 ≡ suc (i + 1) = omega arith in rw z (rest-with_digit i d ts es at_i)

HexAt-short : (i : ℕ) (ts : Bytes) → HexAt i ts → i < length ts
HexAt-short i [] h = absurd h
HexAt-short zero (t ∷ ts) h = omega arith
HexAt-short (suc i) (t ∷ ts) h = omega (arith, HexAt-short i ts h)

same-AllNear : (ts : Bytes) → AllNear ts ts
same-AllNear [] = tt
same-AllNear (t ∷ ts) = (inl refl, same-AllNear ts)

replaced-AllNear : (ts : Bytes) → AllNear ts (map replaced ts)
replaced-AllNear [] = tt
replaced-AllNear (t ∷ ts) = (replaced-Near t, replaced-AllNear ts)

finish-AllNear : (ts : Bytes) → AllNear ts (finish ts).j_data
finish-AllNear [] = tt
finish-AllNear (t ∷ ts) = (inr (inr (inr refl)), same-AllNear ts)

module _ (past : ℕ) (shut : isxdigit past ≡ false) where
  -- A round of the encoder.
  encode_none :
      (last : Bool) (d : ℕ) (ds ts : Bytes)
      → offset2hex past ts last ≡ none
      → encode_from past last (d ∷ ds) ts
        ≡ some (record { enc_cnt = 0; fin = false; j_data = map replaced ts })
  unfolding encode_from
  encode_none last d ds ts e = rw (e, encode_from) refl

  encode_some :
      (last : Bool) (i d : ℕ) (ds ts : Bytes) (e : Encoded)
      → offset2hex past ts last ≡ some i
      → encode_from past true ds (drop (i + 1) ts) ≡ some e
      → encode_from past last (d ∷ ds) ts
        ≡ some
            (record { enc_cnt = suc e.enc_cnt; fin = e.fin; j_data = with_digit i d ts e.j_data })
  unfolding encode_from
  encode_some last i d ds ts e o r =
      let short : ltb i (length ts) ≡ true =
        ground (arith, HexAt-short i ts (offset2hex-HexAt past i ts last shut o)) in
      rw (o, encode_from, short, r) refl

  -- The encoder never writes behind the end, and what it writes is near the template. It encodes all
  -- where there are as many places as data.
  pub encode_from-AllNear :
      (last : Bool) (ds ts : Bytes)
      → AllHex ds
      → (e : Encoded) × (encode_from past last ds ts ≡ some e) × AllNear ts e.j_data
  unfolding encode_from
  encode_from-AllNear last [] ts hex = (finish ts, refl, finish-AllNear ts)
  encode_from-AllNear last (d ∷ ds) ts hex = elim (Option-cases (offset2hex past ts last)) [
    | inl o ↦ (
      record { enc_cnt = 0; fin = false; j_data = map replaced ts },
      encode_none last d ds ts o,
      replaced-AllNear ts,
    )
    | inr (i, o) ↦
        let (e, r, n) = encode_from-AllNear true ds (drop (i + 1) ts) hex.1 in
        let at_i = offset2hex-HexAt past i ts last shut o in
        (
          record { enc_cnt = suc e.enc_cnt; fin = e.fin; j_data = with_digit i d ts e.j_data },
          encode_some last i d ds ts e o r,
          Embedded-AllNear i ts (with_digit i d ts e.j_data)
              (with_digit-Embedded i d ts e.j_data at_i hex.0 n),
        )
  ]

  -- As many places as data: everything is encoded.
  pub encode_from-count_from :
      (rounds : ℕ) (last : Bool) (ds ts : Bytes)
      → AllHex ds
      → length ds ≤ count_from rounds past ts last
      → (e : Encoded) × (encode_from past last ds ts ≡ some e)
        × (e.enc_cnt ≡ length ds)
        × (e.fin ≡ true)
  unfolding encode_from count_from
  encode_from-count_from rounds last [] [] hex enough = (finish [], refl, refl, refl)
  encode_from-count_from rounds last [] (t ∷ ts) hex enough = (finish (t ∷ ts), refl, refl, refl)
  encode_from-count_from zero last (d ∷ ds) ts hex enough = absurd (omega arith)
  encode_from-count_from (suc rounds) last (d ∷ ds) ts hex enough =
      elim (Option-cases (offset2hex past ts last)) [
        | inl o ↦ absurd (let enough' = rw (o, count_from) at enough in omega arith)
        | inr (i, o) ↦
            let enough' = rw (o, count_from) at enough in
            let (e, r, all, fin) =
              encode_from-count_from rounds true ds (drop (i + 1) ts) hex.1 (omega arith) in
            (
              record { enc_cnt = suc e.enc_cnt; fin = e.fin; j_data = with_digit i d ts e.j_data },
              encode_some last i d ds ts e o r,
              ap suc all,
              fin,
            )
      ]

-- A round of the decoder.
module _ (past : ℕ) (last : Bool) (jdp : Bytes) where
  decode_none :
      (size : ℕ) → offset2hex past jdp last ≡ none → (decode_from size past last jdp).0 ≡ []
  unfolding decode_from
  decode_none zero o = rw (o, decode_from) refl
  decode_none (suc size) o = rw (o, decode_from) refl

  decode_end :
      (size i : ℕ)
      → offset2hex past jdp last ≡ some i
      → has_delimiter (take i jdp) ≡ true
      → (decode_from size past last jdp).0 ≡ []
  unfolding decode_from
  decode_end zero i o d = rw (o, decode_from) refl
  decode_end (suc size) i o d = rw (o, decode_from, d) refl

  decode_some :
      (size i : ℕ)
      → offset2hex past jdp last ≡ some i
      → has_delimiter (take i jdp) ≡ false
      → (decode_from (suc size) past last jdp).0
        ≡ head_or past (drop i jdp) ∷ (decode_from size past true (drop (i + 1) jdp)).0
  unfolding decode_from
  decode_some size i o d = rw (o, decode_from, d) refl

take-delimiter :
    (i : ℕ) (ts : Bytes) → HexAt i (delimiter ∷ ts) → has_delimiter (take i (delimiter ∷ ts)) ≡ true
unfolding has_delimiter
take-delimiter zero ts h = absurd (cc)
take-delimiter (suc i) ts h = refl

-- Nothing is read of what stands behind the data.
decode_from-finish :
    (size past : ℕ) (last : Bool) (ts : Bytes)
    → isxdigit past ≡ false
    → (decode_from size past last (finish ts).j_data).0 ≡ []
decode_from-finish size past last [] shut =
    decode_none past last [] size (unfold offset2hex in refl)
decode_from-finish size past last (t ∷ ts) shut =
    elim (Option-cases (offset2hex past (delimiter ∷ ts) last)) [
      | inl o ↦ decode_none past last (delimiter ∷ ts) size o
      | inr (i, o) ↦
          decode_end past last (delimiter ∷ ts) size i o
            (take-delimiter i ts (offset2hex-HexAt past i (delimiter ∷ ts) last shut o))
    ]

module _ (past past' : ℕ) (shut : isxdigit past ≡ false) (shut' : isxdigit past' ≡ false) where
  -- The data are read back, where the output has room for them.
  pub decode_from-encode_from :
      (size : ℕ) (last : Bool) (ds ts : Bytes) (e : Encoded)
      → AllHex ds
      → length ds ≤ size
      → encode_from past last ds ts ≡ some e
      → e.enc_cnt ≡ length ds
      → (decode_from size past' last e.j_data).0 ≡ ds
  unfolding encode_from
  decode_from-encode_from size last [] ts e hex room r all =
      let same : finish ts ≡ e = cc in rw (sym same) (decode_from-finish size past' last ts shut')
  decode_from-encode_from zero last (d ∷ ds) ts e hex room r all = absurd (omega arith)
  decode_from-encode_from (suc size) last (d ∷ ds) ts e hex room r all =
      elim (Option-cases (offset2hex past ts last)) [
        | inl o ↦ absurd (
            let x = encode_none past shut last d ds ts o in
            let same : record { enc_cnt = 0; fin = false; j_data = map replaced ts } ≡ e = cc in
            let z = ap (λ (y : Encoded). y.enc_cnt) same in omega arith)
        | inr (i, o) ↦
            let (e', r', n) = encode_from-AllNear past shut true ds (drop (i + 1) ts) hex.1 in
            let x = encode_some past shut last i d ds ts e' o r' in
            let out = with_digit i d ts e'.j_data in
            let same : record { enc_cnt = suc e'.enc_cnt; fin = e'.fin; j_data = out } ≡ e = cc in
            let all' : e'.enc_cnt ≡ length ds =
              let z = ap (λ (y : Encoded). y.enc_cnt) same in omega arith in
            let at_i = offset2hex-HexAt past i ts last shut o in
            let o' =
              offset2hex-Embedded past past' i ts out last shut o
                (with_digit-Embedded i d ts e'.j_data at_i hex.0 n) in
            let step =
              decode_some past' last out size i o'
                (has_delimiter-with_digit i d ts e'.j_data at_i) in
            let back =
              decode_from-encode_from size true ds (drop (i + 1) ts) e' hex.1 (omega arith) r'
                all' in
            rw (sym same) (
              step
              ∙ (rw (drop-with_digit i d ts e'.j_data at_i, rest-with_digit i d ts e'.j_data at_i)
                  (ap (◌∷◌ d) back)))
      ]
