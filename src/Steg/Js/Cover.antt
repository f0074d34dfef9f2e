-- ===== src/Steg/Js/Cover.antt =====
-- `JSSteg` of src/steg/http_steg_mods/jsSteg.cc: the whole cover, without the compression that
-- JS_GZIP_RESP switches off.
use stegotorus.Common.{
  ℕ, ◌-◌, ◌/◌, ◌%◌, ◌^◌, not, ◌||◌, ltb, ◌==◌, if◌then◌else◌, Option, none, some, [], ◌∷◌, length,
  get_or, codes,
}
use stegotorus.Common.Evbuffer.{Bytes}
use stegotorus.Steg.Js.Block.{
  preliminary_capacity, failed, encoded, encode_in_single_js_block, isx_string,
  decode_single_js_block,
}

-- static_headless_capacity; in C the quotient of -1 and 2 is 0.
unfoldable pub static_headless_capacity : ℕ → Bytes → ℕ
static_headless_capacity past buf = (preliminary_capacity past buf - 1) / 2

abbrev pub hex_digit : ℕ → ℕ
hex_digit n = get_or (codes "0123456789abcdef") n 0

-- encode_data_to_hex of src/util.cc
unfoldable pub encode_data_to_hex : Bytes → Bytes
encode_data_to_hex [] = []
encode_data_to_hex (b ∷ bs) = hex_digit (b / 16 % 16) ∷ hex_digit (b % 16) ∷ encode_data_to_hex bs

-- encode_http_body: what is in `outbuf`, or `none` for -1, and for a call without message too, after which
-- the code reads a `fin` that was never written.
unfoldable pub encode_http_body : ℕ → ℕ → Bytes → Bytes → ℕ → Option (ℕ × Bytes)
encode_http_body past_data past message template jdlen =
    elim (encode_in_single_js_block past_data past message template jdlen) [
      | failed e ↦ none
      | encoded e ↦
          if ltb e.enc_cnt (length message) || not e.fin then none else some (e.enc_cnt, e.j_data)
    ]

-- SIZE_T_CEILING of src/util.h
abbrev pub size_t_ceiling : ℕ
size_t_ceiling = 2 ^ 63 - 17

-- JSSteg::encode. The result is `outbuf`, of the length that the code returns.
unfoldable pub encode : ℕ → ℕ → Bytes → Bytes → Option Bytes
encode past_data past message cover =
    if ltb size_t_ceiling (length cover) || ltb size_t_ceiling (length message)
    then none
    else if ltb (static_headless_capacity past cover) (length message)
    then none
    else let hexed = encode_data_to_hex message in
      elim (encode_http_body past_data past hexed cover (length cover)) [
        | none ↦ none
        | some (r, outbuf) ↦ if ltb r (length hexed) then none else some outbuf
      ]

-- HTTP_PAYLOAD_BUF_SIZE
abbrev pub http_payload_buf_size : ℕ
http_payload_buf_size = 500000

module _ (sscanf_2x : Bytes → ℕ → ℕ) where
  -- The last loop of JSSteg::decode; sscanf with "%2x" leaves its `k` where it reads no number, and a
  -- byte of it is kept. For `i < decCnt` with `decCnt` even.
  unfoldable pub from_hex : ℕ → Bytes → Bytes
  from_hex k [] = []
  from_hex k (c ∷ []) = []
  from_hex k (c ∷ c' ∷ cs) = let k' = sscanf_2x (c ∷ c' ∷ cs) k in (k' % 256) ∷ from_hex k' cs

  -- JSSteg::decode; `k` is what its variable holds at first.
  unfoldable pub decode : ℕ → ℕ → Bytes → Option Bytes
  decode k past cover =
      let (message, fin) = decode_single_js_block past cover http_payload_buf_size in
      if not (length message % 2 == 0)
      then none
      else if not (isx_string 0 message)
      then none
      else some (from_hex k message)
