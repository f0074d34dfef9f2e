-- ===== src/Base64/RoundTrip.antt =====
-- src/base64.cc: decoding undoes encoding, in pieces of any size.
use stegotorus.Common.{
  ℕ, ◌+◌, ◌*◌, ◌/◌, ◌%◌, ◌^◌, ◌<◌, ◌≡◌, refl, ap, ◌∙◌, bit_or, arith, Bool, true, false, ◌==◌,
  ==_iff, if◌then◌else◌, Option, [], ◌∷◌, ◌++◌, append_assoc, All, IsByte, under, under→true,
  Bool-cases, inl, inr,
}
use stegotorus.Common.Evbuffer.{Bytes}
use stegotorus.Base64.{
  Encoder, encoder, decoder, EncodeStep, encode, encode_end, Decoder, DecodeStep, decode,
}
use stegotorus.Base64.Feed.{
  feed_at, feed, feed_group, gather_at, gather_char, gather, encode-feed, decode-gather,
}
use stegotorus.Base64.Alphabet.{Chars, encode1, IsAlphabet}
use stegotorus.Base64.Digits.{decode1-encode1, decode1-equals, decode1_newline}

-- `|` of parts that share no bit.
or_row : ℕ → ℕ → ℕ → Bool
or_row k a b = bit_or (a * 2 ^ k) b == a * 2 ^ k + b

or_table : (k n : ℕ) → ℕ → Bool
or_table k n a = under (or_row k a) (2 ^ k)

or_parts :
    (k n a b : ℕ)
    → under (or_table k n) n ≡ true
    → a < n
    → b < 2 ^ k
    → bit_or (a * 2 ^ k) b ≡ a * 2 ^ k + b
unfolding or_row or_table
or_parts k n a b table ha hb =
    (==_iff _ _).0 (under→true (or_row k a) (2 ^ k) hb (under→true (or_table k n) n ha table))

or_2_6 : (a b : ℕ) → a < 64 → b < 4 → bit_or (a * 4) b ≡ a * 4 + b
or_2_6 a b ha hb = or_parts 2 64 a b (unfold under or_row or_table in refl) ha hb

or_4_4 : (a b : ℕ) → a < 16 → b < 16 → bit_or (a * 16) b ≡ a * 16 + b
or_4_4 a b ha hb = or_parts 4 16 a b (unfold under or_row or_table in refl) ha hb

or_2_4 : (a b : ℕ) → a < 16 → b < 4 → bit_or (a * 4) b ≡ a * 4 + b
or_2_4 a b ha hb = or_parts 2 16 a b (unfold under or_row or_table in refl) ha hb

or_4_2 : (a b : ℕ) → a < 4 → b < 16 → bit_or (a * 16) b ≡ a * 16 + b
or_4_2 a b ha hb = or_parts 4 4 a b (unfold under or_row or_table in refl) ha hb

or_6_2 : (a b : ℕ) → a < 4 → b < 64 → bit_or (a * 64) b ≡ a * 64 + b
or_6_2 a b ha hb = or_parts 6 4 a b (unfold under or_row or_table in refl) ha hb

-- A byte from its parts, as the decoder joins them.
byte_b : (y q : ℕ) → IsByte y → q ≡ y % 4 → bit_or (y / 4 * 4) q ≡ y
byte_b y q h e = or_2_6 (y / 4) q (omega arith) (omega arith) ∙ omega arith

byte_c : (y q : ℕ) → IsByte y → q ≡ y % 16 → bit_or (y / 16 * 16) q ≡ y
byte_c y q h e = or_4_4 (y / 16) q (omega arith) (omega arith) ∙ omega arith

byte_d : (y q : ℕ) → IsByte y → q ≡ y % 64 → bit_or (y / 64 * 64) q ≡ y
byte_d y q h e = or_6_2 (y / 64) q (omega arith) (omega arith) ∙ omega arith

-- The text of an encoder from a state on.
unfoldable pub text : Encoder → Bytes → Bytes
unfolding feed encode_end
text e xs = (feed e xs).1 ++ (encode_end (feed e xs).0).1

text_step :
    (e : Encoder) (x : ℕ) (xs : Bytes)
    → text e (x ∷ xs) ≡ (feed_at e.step e x).1 ++ text (feed_at e.step e x).0 xs
unfolding text
text_step e x xs =
    append_assoc (feed_at e.step e x).1 (feed (feed_at e.step e x).0 xs).1
      (encode_end (feed e (x ∷ xs)).0).1

module _ (beyond : Option ℕ) (chars : Chars) (ok : IsAlphabet chars) where
  plain : Decoder → Bytes → Bytes
  unfolding gather
  plain d cs = (gather beyond d cs).1

  -- The decoder in a state, and the encoder with what is left of a group.
  abbrev reading : DecodeStep → ℕ → Decoder
  reading step c = record { step = step; plainchar = c; chars = chars }

  abbrev writing : EncodeStep → ℕ → ℕ → Bool → Encoder
  writing step count result wrap = record {
    step = step;
    stepcount = count;
    result = result;
    chars = chars;
    wrap = wrap;
  }

  plain-digit :
      (step : DecodeStep) (c v : ℕ) (rest : Bytes)
      → v < 64
      → plain (reading step c) (encode1 v chars ∷ rest)
        ≡ (gather_at step (reading step c) v).1 ++ plain (gather_at step (reading step c) v).0 rest
  unfolding plain gather_char
  plain-digit step c v rest h = rw (decode1-encode1 beyond chars ok v h, gather_char) refl

  plain-equals :
      (step : DecodeStep) (c : ℕ) (rest : Bytes)
      → plain (reading step c) (chars.equals ∷ rest) ≡ plain (reading step c) rest
  unfolding plain gather_char
  plain-equals step c rest = rw (decode1-equals beyond chars ok, gather_char) refl

  plain_newline :
      (step : DecodeStep) (c : ℕ) (rest : Bytes)
      → plain (reading step c) (b'\n' ∷ rest) ≡ plain (reading step c) rest
  unfolding plain gather_char
  plain_newline step c rest = rw (decode1_newline beyond chars ok, gather_char) refl

  plain_end :
      (wrap : Bool) (step : DecodeStep) (c : ℕ)
      → plain (reading step c) (if wrap then b'\n' ∷ [] else []) ≡ []
  plain_end true step c = rw (plain_newline step c []) (unfold plain gather in refl)
  plain_end false step c = unfold plain gather in refl

  -- A group's state on both sides, behind the byte `y`; `j` is a byte that the decoder no longer reads.
  abbrev at : EncodeStep → DecodeStep
  at EncodeStep.step_a = DecodeStep.step_a
  at EncodeStep.step_b = DecodeStep.step_b
  at EncodeStep.step_c = DecodeStep.step_c

  abbrev held : EncodeStep → ℕ → ℕ
  held EncodeStep.step_a y = y
  held EncodeStep.step_b y = y % 4 * 16
  held EncodeStep.step_c y = y % 16 * 4

  abbrev kept : EncodeStep → ℕ → ℕ → ℕ
  kept EncodeStep.step_a y j = j
  kept EncodeStep.step_b y j = y / 4 * 4
  kept EncodeStep.step_c y j = y / 16 * 16

  abbrev pending : EncodeStep → ℕ → Bytes
  pending EncodeStep.step_a y = []
  pending EncodeStep.step_b y = y ∷ []
  pending EncodeStep.step_c y = y ∷ []

  end_group_cases :
      (wrap : Bool) (count result a b : ℕ) (P : Encoder × Bytes → Type 0)
      → ((n : ℕ) → P (writing EncodeStep.step_a n result wrap, a ∷ b ∷ []))
      → ((n : ℕ) → P (writing EncodeStep.step_a n result wrap, a ∷ b ∷ b'\n' ∷ []))
      → P (feed_group (writing EncodeStep.step_a count result wrap) (a ∷ b ∷ []))
  end_group_cases false count result a b P whole broken = whole count
  end_group_cases true count result a b P whole broken = elim (Bool-cases (count + 1 == 18)) [
    | inl full ↦ rw full (broken 0)
    | inr room ↦ rw room (whole (count + 1))
  ]

  round :
      (step : EncodeStep) (y j count : ℕ) (wrap : Bool) (xs : Bytes)
      → IsByte y
      → All IsByte xs
      → plain (reading (at step) (kept step y j)) (text (writing step count (held step y) wrap) xs)
        ≡ pending step y ++ xs
  round EncodeStep.step_a y j count wrap [] hy h =
      unfold text feed encode_end in plain_end wrap DecodeStep.step_a j
  round EncodeStep.step_b y j count wrap [] hy h =
      unfold text feed encode_end in
      rw
        (
          plain-digit DecodeStep.step_b (y / 4 * 4) (y % 4 * 16) _ (omega arith),
          plain-equals DecodeStep.step_c _ _,
          plain-equals DecodeStep.step_c _ _,
          plain_end wrap DecodeStep.step_c _,
          byte_b y (y % 4 * 16 / 16 % 4) hy (omega arith),
        )
        refl
  round EncodeStep.step_c y j count wrap [] hy h =
      unfold text feed encode_end in
      rw
        (
          plain-digit DecodeStep.step_c (y / 16 * 16) (y % 16 * 4) _ (omega arith),
          plain-equals DecodeStep.step_d _ _,
          plain_end wrap DecodeStep.step_d _,
          byte_c y (y % 16 * 4 / 4 % 16) hy (omega arith),
        )
        refl
  round EncodeStep.step_a y j count wrap (x ∷ xs) hy h =
      let low : x / 4 % 64 * 4 ≡ x / 4 * 4 = omega arith in
      rw
        (
          text_step (writing EncodeStep.step_a count y wrap) x xs,
          plain-digit DecodeStep.step_a j (x / 4)
              (text (writing EncodeStep.step_b count (x % 4 * 16) wrap) xs) (omega arith),
          low,
        )
        (round EncodeStep.step_b x 0 count wrap xs h.0 h.1)
  round EncodeStep.step_b y j count wrap (x ∷ xs) hy h =
      let v = y % 4 * 16 + x / 16 in
      let digit : bit_or (y % 4 * 16) (x / 16) ≡ v =
        or_4_2 (y % 4) (x / 16) (omega arith) (omega arith) in
      let low : v % 16 * 16 ≡ x / 16 * 16 = omega arith in
      rw
        (
          text_step (writing EncodeStep.step_b count (y % 4 * 16) wrap) x xs,
          digit,
          plain-digit DecodeStep.step_b (y / 4 * 4) v
              (text (writing EncodeStep.step_c count (x % 16 * 4) wrap) xs) (omega arith),
          byte_b y (v / 16 % 4) hy (omega arith),
          low,
        )
        (ap (◌∷◌ y) (round EncodeStep.step_c x 0 count wrap xs h.0 h.1))
  round EncodeStep.step_c y j count wrap (x ∷ xs) hy h =
      let v = y % 16 * 4 + x / 64 in
      let digit : bit_or (y % 16 * 4) (x / 64) ≡ v =
        or_2_4 (y % 16) (x / 64) (omega arith) (omega arith) in
      let low : v % 4 * 64 ≡ x / 64 * 64 = omega arith in
      let a = encode1 v chars in
      let b = encode1 (x % 64) chars in
      let start = reading DecodeStep.step_c (y / 16 * 16) in
      let group : (rest : Bytes)
          → plain start (a ∷ b ∷ rest)
            ≡ y ∷ x ∷ plain (reading DecodeStep.step_a (x / 64 * 64)) rest =
        λ rest.
          rw
            (
              plain-digit DecodeStep.step_c (y / 16 * 16) v (b ∷ rest) (omega arith),
              byte_c y (v / 4 % 16) hy (omega arith),
              low,
              plain-digit DecodeStep.step_d (x / 64 * 64) (x % 64) rest (omega arith),
              byte_d x (x % 64 % 64) h.0 (omega arith),
            )
            refl in
      let after =
        λ (n : ℕ). round EncodeStep.step_a (x % 64) (x / 64 * 64) n wrap xs (omega arith) h.1 in
      rw (text_step (writing EncodeStep.step_c count (y % 16 * 4) wrap) x xs, digit)
        (end_group_cases wrap count (x % 64) a b
          (λ r. plain start (r.1 ++ text r.0 xs) ≡ y ∷ x ∷ xs)
          (λ n. rw (group (text (writing EncodeStep.step_a n (x % 64) wrap) xs), after n) refl)
          (λ n.
            rw
              (
                group (b'\n' ∷ text (writing EncodeStep.step_a n (x % 64) wrap) xs),
                plain_newline DecodeStep.step_a (x / 64 * 64)
                    (text (writing EncodeStep.step_a n (x % 64) wrap) xs),
                after n,
              )
              refl))

pub gather-feed :
    (beyond : Option ℕ) (chars : Chars) (wrap : Bool) (xs : Bytes)
    → IsAlphabet chars
    → All IsByte xs
    → (let (e, out) = feed (encoder wrap chars) xs in
        (gather beyond (decoder chars) (out ++ (encode_end e).1)).1 ≡ xs)
gather-feed beyond chars wrap xs ok h =
    unfold plain text encoder decoder in
    round beyond chars ok EncodeStep.step_a 0 0 0 wrap xs (omega arith) h

-- Decoding what an encoder writes for a sequence of bytes gives the bytes back, with and without line
-- breaks, if the encoder's three characters are no letters or digits, differ from each other and from
-- the characters that they replace, and are no line break, and the padding is no '{'.
pub decode-encode_end :
    (beyond : Option ℕ) (chars : Chars) (wrap : Bool) (xs : Bytes)
    → IsAlphabet chars
    → All IsByte xs
    → (let (e, out) = encode (encoder wrap chars) xs in
        (decode beyond (decoder chars) (out ++ (encode_end e).1)).1 ≡ xs)
decode-encode_end beyond chars wrap xs ok h =
    let (e, out) = feed (encoder wrap chars) xs in
    rw
      (
        encode-feed (encoder wrap chars) xs,
        decode-gather beyond (decoder chars) (out ++ (encode_end e).1),
      )
      (gather-feed beyond chars wrap xs ok h)
