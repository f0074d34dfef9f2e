-- ===== src/Base64/Feed.antt =====
-- src/base64.cc: the same state machines, fed one character at a time, with all their state in the
-- object. The code's loops, with local variables that are saved and restored, do the same.
use stegotorus.Common.{
  ℕ, ◌+◌, ◌*◌, ◌/◌, ◌%◌, ◌^◌, ◌≡◌, refl, bit_or, Bool-cases, inl, inr, Option, none, some,
  Option-cases, [], ◌∷◌, ◌++◌, ◌==◌,
}
use stegotorus.Common.Evbuffer.{Bytes}
use stegotorus.Base64.{
  Encoder, EncodeStep, end_group, encode_label, encode, Decoder, DecodeStep, decode_label, decode,
}
use stegotorus.Base64.Alphabet.{encode1, decode1}

abbrev pub feed_group : Encoder → Bytes → Encoder × Bytes
feed_group e out = let (e', line_end) = end_group e in (e', out ++ line_end)

-- One byte, behind a label.
abbrev pub feed_at : EncodeStep → Encoder → ℕ → Encoder × Bytes
feed_at EncodeStep.step_a e fragment = (
  record e { step = EncodeStep.step_b; result = fragment % 2 ^ 2 * 2 ^ 4 },
  encode1 (fragment / 2 ^ 2) e.chars ∷ [],
)
feed_at EncodeStep.step_b e fragment = (
  record e { step = EncodeStep.step_c; result = fragment % 2 ^ 4 * 2 ^ 2 },
  encode1 (bit_or e.result (fragment / 2 ^ 4)) e.chars ∷ [],
)
feed_at EncodeStep.step_c e fragment =
    feed_group (record e { step = EncodeStep.step_a; result = fragment % 2 ^ 6 })
      (encode1 (bit_or e.result (fragment / 2 ^ 6)) e.chars
        ∷ encode1 (fragment % 2 ^ 6) e.chars
        ∷ [])

unfoldable pub feed : Encoder → Bytes → Encoder × Bytes
feed e [] = (e, [])
feed e (c ∷ cs) =
    let (e', out) = feed_at e.step e c in let (e'', rest) = feed e' cs in (e'', out ++ rest)

-- One digit, behind a label.
abbrev pub gather_at : DecodeStep → Decoder → ℕ → Decoder × Bytes
gather_at DecodeStep.step_a d fragment =
    (record d { step = DecodeStep.step_b; plainchar = fragment % 2 ^ 6 * 2 ^ 2 }, [])
gather_at DecodeStep.step_b d fragment = (
  record d { step = DecodeStep.step_c; plainchar = fragment % 2 ^ 4 * 2 ^ 4 },
  bit_or d.plainchar (fragment / 2 ^ 4 % 2 ^ 2) ∷ [],
)
gather_at DecodeStep.step_c d fragment = (
  record d { step = DecodeStep.step_d; plainchar = fragment % 2 ^ 2 * 2 ^ 6 },
  bit_or d.plainchar (fragment / 2 ^ 2 % 2 ^ 4) ∷ [],
)
gather_at DecodeStep.step_d d fragment =
    (record d { step = DecodeStep.step_a }, bit_or d.plainchar (fragment % 2 ^ 6) ∷ [])

unfoldable pub gather_char : Option ℕ → Decoder → ℕ → Decoder × Bytes
gather_char beyond d c = elim (decode1 beyond c d.chars) [
  | none ↦ (d, [])
  | some fragment ↦ gather_at d.step d fragment
]

unfoldable pub gather : Option ℕ → Decoder → Bytes → Decoder × Bytes
gather beyond d [] = (d, [])
gather beyond d (c ∷ cs) =
    let (d', out) = gather_char beyond d c in
    let (d'', rest) = gather beyond d' cs in (d'', out ++ rest)

encode_label-feed :
    (step : EncodeStep) (result : ℕ) (e : Encoder) (cs : Bytes)
    → encode_label step result e cs ≡ feed (record e { step = step; result = result }) cs
unfolding encode_label feed
encode_label-feed EncodeStep.step_a result e [] = refl
encode_label-feed EncodeStep.step_b result e [] = refl
encode_label-feed EncodeStep.step_c result e [] = refl
encode_label-feed EncodeStep.step_a result e (c ∷ cs) =
    rw (encode_label-feed EncodeStep.step_b (c % 2 ^ 2 * 2 ^ 4) e cs) refl
encode_label-feed EncodeStep.step_b result e (c ∷ cs) =
    rw (encode_label-feed EncodeStep.step_c (c % 2 ^ 4 * 2 ^ 2) e cs) refl
encode_label-feed EncodeStep.step_c result e (c ∷ cs) =
    rw (encode_label-feed EncodeStep.step_a (c % 2 ^ 6) (end_group e).0 cs)
      (elim (Bool-cases e.wrap) [
        | inr off ↦ rw off refl
        | inl on ↦ elim (Bool-cases (e.stepcount + 1 == 18)) [
          | inl full ↦ rw (on, full) refl
          | inr room ↦ rw (on, room) refl
        ]
      ])

pub encode-feed : (e : Encoder) (cs : Bytes) → encode e cs ≡ feed e cs
unfolding encode
encode-feed e cs = encode_label-feed e.step e.result e cs

decode_label-gather :
    (beyond : Option ℕ) (step : DecodeStep) (plainchar : ℕ) (d : Decoder) (cs : Bytes)
    → decode_label beyond step plainchar d cs
      ≡ gather beyond (record d { step = step; plainchar = plainchar }) cs
unfolding decode_label gather gather_char
decode_label-gather beyond step plainchar d [] = refl
decode_label-gather beyond DecodeStep.step_a plainchar d (c ∷ cs) =
    elim (Option-cases (decode1 beyond c d.chars)) [
      | inl e ↦
          rw (e, decode_label, gather, gather_char)
            (decode_label-gather beyond DecodeStep.step_a plainchar d cs)
      | inr (v, e) ↦
          rw (e, decode_label, gather, gather_char)
            (decode_label-gather beyond DecodeStep.step_b (v % 2 ^ 6 * 2 ^ 2) d cs)
    ]
decode_label-gather beyond DecodeStep.step_b plainchar d (c ∷ cs) =
    elim (Option-cases (decode1 beyond c d.chars)) [
      | inl e ↦
          rw (e, decode_label, gather, gather_char)
            (decode_label-gather beyond DecodeStep.step_b plainchar d cs)
      | inr (v, e) ↦
          rw (e, decode_label, gather, gather_char)
            (rw (decode_label-gather beyond DecodeStep.step_c (v % 2 ^ 4 * 2 ^ 4) d cs) refl)
    ]
decode_label-gather beyond DecodeStep.step_c plainchar d (c ∷ cs) =
    elim (Option-cases (decode1 beyond c d.chars)) [
      | inl e ↦
          rw (e, decode_label, gather, gather_char)
            (decode_label-gather beyond DecodeStep.step_c plainchar d cs)
      | inr (v, e) ↦
          rw (e, decode_label, gather, gather_char)
            (rw (decode_label-gather beyond DecodeStep.step_d (v % 2 ^ 2 * 2 ^ 6) d cs) refl)
    ]
decode_label-gather beyond DecodeStep.step_d plainchar d (c ∷ cs) =
    elim (Option-cases (decode1 beyond c d.chars)) [
      | inl e ↦
          rw (e, decode_label, gather, gather_char)
            (decode_label-gather beyond DecodeStep.step_d plainchar d cs)
      | inr (v, e) ↦
          rw (e, decode_label, gather, gather_char)
            (rw (decode_label-gather beyond DecodeStep.step_a plainchar d cs) refl)
    ]

pub decode-gather :
    (beyond : Option ℕ) (d : Decoder) (cs : Bytes) → decode beyond d cs ≡ gather beyond d cs
unfolding decode
decode-gather beyond d cs = decode_label-gather beyond d.step d.plainchar d cs
