-- ===== src/Steg/Js/RoundTrip.antt =====
-- A message through `JSSteg` (src/steg/http_steg_mods/jsSteg.cc).
use stegotorus.Common.{
  ℕ, ◌+◌, ◌-◌, ◌*◌, ◌/◌, ◌%◌, ◌<◌, ◌≤◌, ◌≡◌, refl, ap, ◌∙◌, arith, Bool, true, false, ◌&&◌, ◌||◌,
  leb, ltb, ◌==◌, if◌then◌else◌, some, [], ◌∷◌, length, All, under, under→true,
}
use stegotorus.Common.Evbuffer.{Bytes}
use stegotorus.Steg.Js.{isdigit, isxdigit}
use stegotorus.Steg.Js.Block.{
  preliminary_capacity, count_from, Encoded, encoded, encode_from, isx_string,
  encode_in_single_js_block, decode_from,
}
use stegotorus.Steg.Js.Cover.{
  static_headless_capacity, hex_digit, encode_data_to_hex, encode_http_body, size_t_ceiling, encode,
  from_hex, decode,
}
use stegotorus.Steg.Js.Offset.{length-AllNear}
use stegotorus.Steg.Js.Blocks.{
  AllHex, encode_from-AllNear, encode_from-count_from, decode_from-encode_from,
}

-- The value of a hexadecimal digit, and what "%2x" reads of two.
abbrev pub hex_value : ℕ → ℕ
hex_value c = if isdigit c then c - b'0' else if leb b'a' c then c - 87 else c - 55

abbrev pub ReadsHex : (Bytes → ℕ → ℕ) → Type 0
ReadsHex sscanf_2x =
    (c c' k : ℕ) (rest : Bytes)
    → isxdigit c ≡ true
    → isxdigit c' ≡ true
    → sscanf_2x (c ∷ c' ∷ rest) k ≡ 16 * hex_value c + hex_value c'

abbrev pub AllBytes : Bytes → Type 0
AllBytes = All (λ b. b < 256)

digit_test : ℕ → Bool
digit_test n = isxdigit (hex_digit n) && (hex_value (hex_digit n) == n)

digit_table : under digit_test 16 ≡ true
unfolding under digit_test
digit_table = refl

digit_lem : (n : ℕ) → n < 16 → (isxdigit (hex_digit n) ≡ true) × (hex_value (hex_digit n) ≡ n)
unfolding digit_test
digit_lem n l =
    let t = under→true digit_test {i = n} 16 l digit_table in (ground arith, ground arith)

encode_data_to_hex-AllHex : (message : Bytes) → AllHex (encode_data_to_hex message)
unfolding encode_data_to_hex
encode_data_to_hex-AllHex [] = tt
encode_data_to_hex-AllHex (b ∷ bs) = (
  (digit_lem (b / 16 % 16) (omega arith)).0,
  ((digit_lem (b % 16) (omega arith)).0, encode_data_to_hex-AllHex bs),
)

length-encode_data_to_hex :
    (message : Bytes) → length (encode_data_to_hex message) ≡ 2 * length message
unfolding encode_data_to_hex
length-encode_data_to_hex [] = refl
length-encode_data_to_hex (b ∷ bs) = omega (arith, length-encode_data_to_hex bs)

from_hex-encode_data_to_hex :
    (sscanf_2x : Bytes → ℕ → ℕ) (k : ℕ) (message : Bytes)
    → ReadsHex sscanf_2x
    → AllBytes message
    → from_hex sscanf_2x k (encode_data_to_hex message) ≡ message
unfolding encode_data_to_hex from_hex
from_hex-encode_data_to_hex scan k [] reads small = refl
from_hex-encode_data_to_hex scan k (b ∷ bs) reads small =
    let (hex, value) = digit_lem (b / 16 % 16) (omega arith) in
    let (hex', value') = digit_lem (b % 16) (omega arith) in
    let two : scan (hex_digit (b / 16 % 16) ∷ hex_digit (b % 16) ∷ encode_data_to_hex bs) k ≡ b =
      reads (hex_digit (b / 16 % 16)) (hex_digit (b % 16)) k (encode_data_to_hex bs) hex hex'
      ∙ omega (arith, value, value', small.0) in
    let fits : b % 256 ≡ b = omega (arith, small.0) in
    rw (two, fits) (ap (◌∷◌ b) (from_hex-encode_data_to_hex scan b bs reads small.1))

isx_string-AllHex :
    (past : ℕ) (str : Bytes) → 0 < length str → AllHex str → isx_string past str ≡ true
unfolding isx_string
isx_string-AllHex past [] l hex = absurd (omega arith)
isx_string-AllHex past (c ∷ cs) l hex = ground (arith, hex.0)

-- The encoder, where everything fits.
module _ (past_data past : ℕ) (e : Encoded) (cover : Bytes) where
  block_lem :
      (dp : Bytes)
      → isx_string past_data dp ≡ true
      → 0 < length dp
      → encode_from past false dp cover ≡ some e
      → encode_in_single_js_block past_data past dp cover (length cover) ≡ encoded e
  unfolding encode_in_single_js_block
  block_lem dp hex some_data r =
      let wide : ltb (length cover) (length cover) ≡ false = ground arith in
      let full : (length dp == 0) ≡ false = ground arith in rw (wide, hex, full, r) refl

  body_lem :
      (dp : Bytes)
      → encode_in_single_js_block past_data past dp cover (length cover) ≡ encoded e
      → e.enc_cnt ≡ length dp
      → e.fin ≡ true
      → encode_http_body past_data past dp cover (length cover) ≡ some (e.enc_cnt, e.j_data)
  unfolding encode_http_body
  body_lem dp r all fin =
      let enough : ltb e.enc_cnt (length dp) ≡ false = ground arith in
      rw (r, encode_http_body, enough, fin) refl

  encode_lem :
      (message : Bytes)
      → length message ≤ 131103
      → length cover ≤ size_t_ceiling
      → length message ≤ static_headless_capacity past cover
      → encode_http_body past_data past (encode_data_to_hex message) cover (length cover)
        ≡ some (e.enc_cnt, e.j_data)
      → e.enc_cnt ≡ length (encode_data_to_hex message)
      → encode past_data past message cover ≡ some e.j_data
  unfolding encode
  encode_lem message short fits room r all =
      let small : (ltb size_t_ceiling (length cover) || ltb size_t_ceiling (length message))
          ≡ false =
        ground arith in
      let enough : ltb (static_headless_capacity past cover) (length message) ≡ false =
        ground arith in
      let whole : ltb e.enc_cnt (length (encode_data_to_hex message)) ≡ false = ground arith in
      rw (small, enough, r, encode, whole) refl

decode_lem :
    (scan : Bytes → ℕ → ℕ) (k past n : ℕ) (out dp : Bytes)
    → (decode_from 500000 past false out).0 ≡ dp
    → length dp ≡ 2 * n
    → isx_string 0 dp ≡ true
    → decode scan k past out ≡ some (from_hex scan k dp)
unfolding decode
decode_lem scan k past n out dp back double hex =
    let even : (length dp % 2 == 0) ≡ true = ground (arith, double) in rw (back, even, hex) refl

-- A message of at least one and at most c_MAX_MSG_BUF_SIZE bytes that the capacity of a cover allows is
-- hidden in the cover, which keeps its length, and is read back from it. The characters behind the
-- cover and behind its copy are no hexadecimal digits, a cover is at most SIZE_T_CEILING long, and
-- sscanf reads two digits as documented.
pub js-decode-encode :
    (sscanf_2x : Bytes → ℕ → ℕ) (k past_data past past' : ℕ) (message cover : Bytes)
    → ReadsHex sscanf_2x
    → isxdigit past ≡ false
    → isxdigit past' ≡ false
    → AllBytes message
    → 0 < length message
    → length message ≤ 131103
    → length cover ≤ size_t_ceiling
    → length message ≤ static_headless_capacity past cover
    → (out : Bytes) × (encode past_data past message cover ≡ some out)
      × (length out ≡ length cover)
      × (decode sscanf_2x k past' out ≡ some message)
unfolding static_headless_capacity preliminary_capacity
js-decode-encode scan k past_data past past' message cover reads shut shut' small some_data short
      fits room =
    let hexed = encode_data_to_hex message in
    let hex = encode_data_to_hex-AllHex message in
    let double = length-encode_data_to_hex message in
    let enough : length hexed ≤ count_from (length cover + 1) past cover false =
      omega (arith, room, double) in
    let (e, r, all, fin) =
      encode_from-count_from past shut (length cover + 1) false hexed cover hex enough in
    let (e', r', near) = encode_from-AllNear past shut false hexed cover hex in
    let same : e' ≡ e = cc in
    let back =
      decode_from-encode_from past past' shut shut' 500000 false hexed cover e hex
        (omega (arith, double)) r all in
    let block =
      block_lem past_data past e cover hexed
        (isx_string-AllHex past_data hexed (omega (arith, double)) hex) (omega (arith, double)) r in
    let body = body_lem past_data past e cover hexed block all fin in
    let dec =
      decode_lem scan k past' (length message) e.j_data hexed back double
        (isx_string-AllHex 0 hexed (omega (arith, double)) hex) in
    (
      e.j_data,
      encode_lem past_data past e cover message short fits room body all,
      rw same at (length-AllNear cover e'.j_data near),
      dec ∙ ap some (from_hex-encode_data_to_hex scan k message reads small),
    )
