-- ===== src/Steg/Js/Block.antt =====
-- One block of JavaScript: `encode_in_single_js_block` and `decode_single_js_block` of
-- src/steg/http_steg_mods/jsSteg.cc, and the count of usable digits.
use stegotorus.Common.{
  ℕ, zero, suc, ◌+◌, Bool, true, false, not, ◌||◌, ltb, ◌==◌, if◌then◌else◌, Option, none, some, [],
  ◌∷◌, ◌++◌, map, length, take, drop,
}
use stegotorus.Common.Evbuffer.{Bytes}
use stegotorus.Steg.Js.{isxdigit, delimiter, replacement, head_or, offset2hex}

-- The `for` loop of js_code_block_preliminary_capacity, behind the first search: the first argument
-- bounds the rounds.
unfoldable pub count_from : ℕ → ℕ → Bytes → Bool → ℕ
count_from zero past bp last = 0
count_from (suc rounds) past bp last = elim (offset2hex past bp last) [
  | none ↦ 0
  | some j ↦ suc (count_from rounds past (drop (j + 1) bp) true)
]

-- js_code_block_preliminary_capacity: a digit behind the range, which the search may find, would be
-- the last one.
unfoldable pub preliminary_capacity : ℕ → Bytes → ℕ
preliminary_capacity past buf = count_from (length buf + 1) past buf false

-- The character that goes to the output for one that is not used.
abbrev pub replaced : ℕ → ℕ
replaced c = if c == delimiter then replacement else c

pub record Encoded : Type 0 where
  pub enc_cnt : ℕ
  pub fin : Bool
  pub j_data : Bytes

-- Behind the loop: everything was encoded. The rest is copied as it is.
abbrev pub finish : Bytes → Encoded
finish [] = record { enc_cnt = 0; fin = true; j_data = [] }
finish (c ∷ rest) = record { enc_cnt = 0; fin = true; j_data = delimiter ∷ rest }

-- The loop, and what is behind it; `none` where the code writes behind the end of the output.
unfoldable pub encode_from : ℕ → Bool → Bytes → Bytes → Option Encoded
encode_from past last [] template = some (finish template)
encode_from past last (d ∷ ds) template = elim (offset2hex past template last) [
  | none ↦ some (record { enc_cnt = 0; fin = false; j_data = map replaced template })
  | some i ↦ elim (ltb i (length template)) [
    | false ↦ none
    | true ↦ elim (encode_from past true ds (drop (i + 1) template)) [
      | none ↦ none
      | some e ↦ some (record {
        enc_cnt = suc e.enc_cnt;
        fin = e.fin;
        j_data = map replaced (take i template) ++ d ∷ e.j_data;
      })
    ]
  ]
]

-- isxString: its pointer stays at the first character. `past` is the character behind the string's array.
unfoldable pub isx_string : ℕ → Bytes → Bool
isx_string past str = let c = head_or past str in c == 0 || isxdigit c

pub data EncodeError : Type 0 where
  invalid_buf_size invalid_data_char nothing_to_encode overrun : EncodeError

pub data EncodeResult : Type 0 where
  failed : EncodeError → EncodeResult
  encoded : Encoded → EncodeResult

-- encode_in_single_js_block. Without data it returns 0 and leaves the output and `fin` as they are,
-- which is `nothing_to_encode`; `overrun` is a write behind the end. The first two arguments are the
-- characters behind the data and behind the template.
unfoldable pub encode_in_single_js_block : ℕ → ℕ → Bytes → Bytes → ℕ → EncodeResult
encode_in_single_js_block past_data past dp template jdlen =
    if ltb jdlen (length template)
    then failed invalid_buf_size
    else if not (isx_string past_data dp)
    then failed invalid_data_char
    else if length dp == 0
    then failed nothing_to_encode
    else elim (encode_from past false dp template) [ none ↦ failed overrun | some e ↦ encoded e ]

-- Whether JS_DELIMITER is met.
unfoldable pub has_delimiter : Bytes → Bool
has_delimiter [] = false
has_delimiter (c ∷ cs) = c == delimiter || has_delimiter cs

-- decode_single_js_block from a position on: what is written, and `fin`. The number is `dataBufSize`.
unfoldable pub decode_from : ℕ → ℕ → Bool → Bytes → Bytes × Bool
decode_from zero past last jdp = elim (offset2hex past jdp last) [
  | none ↦ ([], has_delimiter jdp)
  | some i ↦ ([], has_delimiter (take i jdp))
]
decode_from (suc size) past last jdp = elim (offset2hex past jdp last) [
  | none ↦ ([], has_delimiter jdp)
  | some i ↦ elim (has_delimiter (take i jdp)) [
    | true ↦ ([], true)
    | false ↦
        let (dp, fin) = decode_from size past true (drop (i + 1) jdp) in
        (head_or past (drop i jdp) ∷ dp, fin)
  ]
]

abbrev pub decode_single_js_block : ℕ → Bytes → ℕ → Bytes × Bool
decode_single_js_block past j_data size = decode_from size past false j_data
