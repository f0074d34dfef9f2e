-- ===== src/Base64/Streaming.antt =====
-- src/base64.cc: text that comes in pieces, with what is saved between them, and how long the results
-- are.
use stegotorus.Common.{
  ℕ, ◌+◌, ◌*◌, ◌/◌, ◌%◌, ◌≤◌, ◌≡◌, refl, arith, false, Bool, Option, List, [], ◌∷◌, ◌++◌,
  append_assoc, length, length-append, All, IsByte, Option-cases, inl, inr,
}
use stegotorus.Common.Evbuffer.{Bytes}
use stegotorus.Base64.{
  Encoder, EncodeStep, encoder, encode, encode_end, Decoder, DecodeStep, decoder, decode,
}
use stegotorus.Base64.Feed.{
  feed_at, feed, gather_at, gather_char, gather, encode-feed, decode-gather,
}
use stegotorus.Base64.RoundTrip.{decode-encode_end}
use stegotorus.Base64.Alphabet.{IsAlphabet}
use stegotorus.Base64.Alphabet.{Chars, decode1}

feed-append :
    (e : Encoder) (xs ys : Bytes)
    → feed e (xs ++ ys)
      ≡ (let (e', out) = feed e xs in let (e'', rest) = feed e' ys in (e'', out ++ rest))
unfolding feed
feed-append e [] ys = refl
feed-append e (x ∷ xs) ys = rw (feed-append (feed_at e.step e x).0 xs ys, append_assoc) refl

-- An encoder that is given a sequence of bytes in two pieces writes what it writes for the whole, and
-- is left in the same state.
encode-append :
    (e : Encoder) (xs ys : Bytes)
    → encode e (xs ++ ys)
      ≡ (let (e', out) = encode e xs in let (e'', rest) = encode e' ys in (e'', out ++ rest))
encode-append e xs ys =
    rw (encode-feed e (xs ++ ys), encode-feed e xs, encode-feed (feed e xs).0 ys)
      (feed-append e xs ys)

gather-append :
    (beyond : Option ℕ) (d : Decoder) (xs ys : Bytes)
    → gather beyond d (xs ++ ys) ≡ (
        let (d', out) = gather beyond d xs in
        let (d'', rest) = gather beyond d' ys in (d'', out ++ rest))
unfolding gather
gather-append beyond d [] ys = refl
gather-append beyond d (x ∷ xs) ys =
    rw (gather-append beyond (gather_char beyond d x).0 xs ys, append_assoc) refl

-- A decoder that is given a text in two pieces writes what it writes for the whole, and is left in the
-- same state.
decode-append :
    (beyond : Option ℕ) (d : Decoder) (xs ys : Bytes)
    → decode beyond d (xs ++ ys) ≡ (
        let (d', out) = decode beyond d xs in
        let (d'', rest) = decode beyond d' ys in (d'', out ++ rest))
decode-append beyond d xs ys =
    rw
      (
        decode-gather beyond d (xs ++ ys),
        decode-gather beyond d xs,
        decode-gather beyond (gather beyond d xs).0 ys,
      )
      (gather-append beyond d xs ys)

-- The pieces of a sequence, one behind the other.
unfoldable pub joined : List Bytes → Bytes
joined [] = []
joined (p ∷ ps) = p ++ joined ps

-- One call of `encode` for each piece.
unfoldable pub encode_pieces : Encoder → List Bytes → Encoder × Bytes
encode_pieces e [] = (e, [])
encode_pieces e (p ∷ ps) =
    let (e', out) = encode e p in let (e'', rest) = encode_pieces e' ps in (e'', out ++ rest)

-- One call of `decode` for each piece.
unfoldable pub decode_pieces : Option ℕ → Decoder → List Bytes → Decoder × Bytes
decode_pieces beyond d [] = (d, [])
decode_pieces beyond d (p ∷ ps) =
    let (d', out) = decode beyond d p in
    let (d'', rest) = decode_pieces beyond d' ps in (d'', out ++ rest)

encode_none : (e : Encoder) → encode e [] ≡ (e, [])
unfolding feed
encode_none e = rw (encode-feed e []) refl

decode_none : (beyond : Option ℕ) (d : Decoder) → decode beyond d [] ≡ (d, [])
unfolding gather
decode_none beyond d = rw (decode-gather beyond d []) refl

encode_pieces-joined :
    (e : Encoder) (pieces : List Bytes) → encode_pieces e pieces ≡ encode e (joined pieces)
unfolding encode_pieces joined
encode_pieces-joined e [] = rw (encode_none e) refl
encode_pieces-joined e (p ∷ ps) =
    rw (encode_pieces-joined (encode e p).0 ps, encode-append e p (joined ps)) refl

decode_pieces-joined :
    (beyond : Option ℕ) (d : Decoder) (pieces : List Bytes)
    → decode_pieces beyond d pieces ≡ decode beyond d (joined pieces)
unfolding decode_pieces joined
decode_pieces-joined beyond d [] = rw (decode_none beyond d) refl
decode_pieces-joined beyond d (p ∷ ps) =
    rw (decode_pieces-joined beyond (decode beyond d p).0 ps, decode-append beyond d p (joined ps))
      refl

-- Bytes that are encoded in any pieces, and whose text is then decoded in any other pieces, come back,
-- with and without line breaks. The encoder's three characters are no letters or digits, differ from
-- each other and from the characters that they replace, and are no line break, and the padding is no
-- '{'.
pub decode_pieces-encode_pieces :
    (beyond : Option ℕ) (chars : Chars) (wrap : Bool) (pieces texts : List Bytes)
    → IsAlphabet chars
    → All IsByte (joined pieces)
    → (let (e, out) = encode_pieces (encoder wrap chars) pieces in
        joined texts ≡ out ++ (encode_end e).1)
    → (decode_pieces beyond (decoder chars) texts).1 ≡ joined pieces
decode_pieces-encode_pieces beyond chars wrap pieces texts ok bytes cut =
    let whole = rw (encode_pieces-joined (encoder wrap chars) pieces) at cut in
    rw (decode_pieces-joined beyond (decoder chars) texts, whole)
      (decode-encode_end beyond chars wrap (joined pieces) ok bytes)

-- Characters of a group that are written.
abbrev written : EncodeStep → ℕ
written EncodeStep.step_a = 0
written EncodeStep.step_b = 1
written EncodeStep.step_c = 2

length-text :
    (step : EncodeStep) (count result : ℕ) (chars : Chars) (xs : Bytes)
    → let e : Encoder = record {
      step = step;
      stepcount = count;
      result = result;
      chars = chars;
      wrap = false;
    } in
      length (feed e xs).1 + length (encode_end (feed e xs).0).1 + written step
      ≡ (length xs + written step + 2) / 3 * 4
unfolding feed encode_end
length-text EncodeStep.step_a count result chars [] = refl
length-text EncodeStep.step_b count result chars [] = refl
length-text EncodeStep.step_c count result chars [] = refl
length-text EncodeStep.step_a count result chars (x ∷ xs) =
    omega (arith, length-text EncodeStep.step_b count (x % 4 * 16) chars xs)
length-text EncodeStep.step_b count result chars (x ∷ xs) =
    omega (arith, length-text EncodeStep.step_c count (x % 16 * 4) chars xs)
length-text EncodeStep.step_c count result chars (x ∷ xs) =
    omega (arith, length-text EncodeStep.step_a count (x % 64) chars xs)

-- The code of n bytes without line breaks has four characters for each three bytes, the last group
-- padded.
pub length-encode :
    (chars : Chars) (xs : Bytes)
    → (let (e, out) = encode (encoder false chars) xs in
        length out + length (encode_end e).1 ≡ (length xs + 2) / 3 * 4)
length-encode chars xs =
    rw (encode-feed (encoder false chars) xs)
      (unfold encoder in omega (arith, length-text EncodeStep.step_a 0 0 chars xs))

-- Quarters of the digits that are in the group under construction, and not yet in the output.
abbrev owed : DecodeStep → ℕ
owed DecodeStep.step_a = 0
owed DecodeStep.step_b = 3
owed DecodeStep.step_c = 2
owed DecodeStep.step_d = 1

owed-gather_at :
    (step : DecodeStep) (d : Decoder) (v : ℕ)
    → length (gather_at step d v).1 * 4 + owed (gather_at step d v).0.step ≤ 3 + owed step
owed-gather_at DecodeStep.step_a d v = omega arith
owed-gather_at DecodeStep.step_b d v = omega arith
owed-gather_at DecodeStep.step_c d v = omega arith
owed-gather_at DecodeStep.step_d d v = omega arith

owed-gather_char :
    (beyond : Option ℕ) (d : Decoder) (c : ℕ)
    → length (gather_char beyond d c).1 * 4 + owed (gather_char beyond d c).0.step ≤ 3 + owed d.step
unfolding gather_char
owed-gather_char beyond d c = elim (Option-cases (decode1 beyond c d.chars)) [
  | inl e ↦ rw (e, gather_char) (omega arith)
  | inr (v, e) ↦ rw (e, gather_char) (owed-gather_at d.step d v)
]

length_rest :
    (beyond : Option ℕ) (d : Decoder) (cs : Bytes)
    → length (gather beyond d cs).1 * 4 ≤ length cs * 3 + owed d.step
unfolding gather
length_rest beyond d [] = omega arith
length_rest beyond d (c ∷ cs) = omega (
  arith,
  owed-gather_char beyond d c,
  length_rest beyond (gather_char beyond d c).0 cs,
  length-append (gather_char beyond d c).1 (gather beyond (gather_char beyond d c).0 cs).1,
)

-- A fresh decoder writes at most three bytes for each four characters, whatever they are.
pub length-decode :
    (beyond : Option ℕ) (chars : Chars) (cs : Bytes)
    → length (decode beyond (decoder chars) cs).1 * 4 ≤ length cs * 3
length-decode beyond chars cs =
    rw (decode-gather beyond (decoder chars) cs)
      (unfold decoder in omega (arith, length_rest beyond (decoder chars) cs))
