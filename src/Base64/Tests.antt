-- ===== src/Base64/Tests.antt =====
-- Runs of src/base64.cc at concrete inputs.
use stegotorus.Common.{◌≡◌, refl, arith, true, none, [], ◌∷◌, ◌++◌}
use stegotorus.Common.Evbuffer.{Bytes}
use stegotorus.Base64.{encoder, encode, encode_label, encode_end, decoder, decode}
use stegotorus.Base64.Alphabet.{IsAlphabet, standard, codes, encode1, encoding_at}
use stegotorus.Base64.RoundTrip.{decode-encode_end}
use stegotorus.Base64.Streaming.{joined, encode_pieces, decode_pieces, decode_pieces-encode_pieces}

standard-IsAlphabet : IsAlphabet standard
standard-IsAlphabet = record {
  plus_free = refl;
  slash_free = refl;
  distinct = omega arith;
  equals_free = refl;
  equals_new = omega arith;
  no_newline = omega arith;
  equals_fits = omega arith;
}

abbrev word : Bytes
word = codes "stego"

word_code : (encode (encoder true standard) word).1 ≡ codes "c3RlZ2"
unfolding encode encode_label encoder encode1 encoding_at
word_code = refl

decode-encode_end_example :
    (let (e, out) = encode (encoder true standard) word in
      (decode none (decoder standard) (out ++ (encode_end e).1)).1 ≡ word)
decode-encode_end_example =
    decode-encode_end none standard true word standard-IsAlphabet (omega arith)

decode_pieces-encode_pieces_example :
    (decode_pieces none (decoder standard) (codes "c3R" ∷ codes "lZ28=\n" ∷ [])).1
    ≡ codes "st" ++ codes "ego"
unfolding encode encode_label encoder encode1 encoding_at encode_end encode_pieces joined
decode_pieces-encode_pieces_example =
    decode_pieces-encode_pieces none standard true (codes "st" ∷ codes "ego" ∷ [])
      (codes "c3R" ∷ codes "lZ28=\n" ∷ []) standard-IsAlphabet (omega arith) refl
