-- ===== src/Steg/Pdf.antt =====
-- `PDFSteg` of src/steg/http_steg_mods/pdfSteg.cc: the compressed message replaces the first stream. zlib
-- (src/compression.cc) and the decimal digits of sprintf are parameters.
pub mod RoundTrip
use stegotorus.Common.{
  ℕ, zero, suc, ◌+◌, ◌-◌, ◌*◌, Bool, ◌&&◌, ◌||◌, leb, ltb, ◌==◌, if◌then◌else◌, Option, none, some,
  List, [], ◌∷◌, ◌++◌, length, take, drop, get_or, codes,
}
use stegotorus.Common.Evbuffer.{Bytes}
use stegotorus.Steg.Memory.{Run, gives, fails, behind}
use stegotorus.Steg.Js.Cover.{size_t_ceiling, http_payload_buf_size}
use stegotorus.Steg.Text.{str_in_binary, str_in_binary_rewind}

-- STREAM_BEGIN and STREAM_END
abbrev pub stream_begin : Bytes
stream_begin = codes "stream"

abbrev pub stream_end : Bytes
stream_end = codes "endstream"

-- The loop of static_headless_capacity; the first argument bounds its rounds. It goes on nine characters
-- behind the start of the stream, not behind its end.
unfoldable pub capacity_from : ℕ → Bytes → ℕ
capacity_from zero bp = 0
capacity_from (suc rounds) bp = elim (str_in_binary stream_begin bp) [
  | none ↦ 0
  | some start ↦ elim (str_in_binary stream_end (drop (start + 6) bp)) [
    | none ↦ 0
    | some end ↦ end - 2 + capacity_from rounds (drop 9 (drop (start + 6) bp))
  ]
]

-- Each round passes fifteen characters.
abbrev pub static_headless_capacity : Bytes → ℕ
static_headless_capacity buf = capacity_from (length buf) buf

-- `stream_meta_data`, before and behind its %d.
abbrev pub meta_length : Bytes
meta_length = codes " <<\n/Length "

abbrev pub meta_filter : Bytes
meta_filter = codes "\n/Filter /FlateDecode\n>>\n"

module _ (compress : Bytes → ℕ → Option Bytes) (decimal : ℕ → Bytes) where
  -- The body of the loop of encode, with the three places found. The test adds 32/3 to its left-hand side
  -- in floating point.
  unfoldable pub replace_stream : Bytes → Bytes → ℕ → ℕ → Run Bytes
  replace_stream data2 cover filter_start end =
      let size = filter_start + 4 in
      if leb (http_payload_buf_size - 10) (
        size
        + (length meta_length + 2 + length meta_filter + 7)
        + length data2
        + (length cover - end))
      then fails
      else gives (
          take size cover
          ++ (meta_length
              ++ (decimal (length data2)
                  ++ (meta_filter
                      ++ (stream_begin
                          ++ (b'\n'
                              ∷ (data2 ++ (b'\n' ∷ (stream_end ++ drop (end + 9) cover)))))))))

  -- The loop of encode, which makes one round.
  unfoldable pub encode_stream : Bytes → Bytes → Run Bytes
  encode_stream data2 [] = gives []
  encode_stream data2 (c ∷ cs) = elim (str_in_binary stream_begin (c ∷ cs)) [
    | none ↦ fails
    | some start ↦ elim (str_in_binary stream_end (c ∷ cs)) [
      | none ↦ fails
      | some end ↦ elim (str_in_binary_rewind (codes " obj") (take start (c ∷ cs))) [
        | none ↦ fails
        | some filter_start ↦ replace_stream data2 (c ∷ cs) filter_start end
      ]
    ]
  ]

  -- PDFSteg::encode; the result is what the cover's buffer holds, of the length that is returned.
  unfoldable pub encode : Bytes → Bytes → Run Bytes
  encode message cover =
      if ltb size_t_ceiling (length cover) || ltb size_t_ceiling (length message)
      then fails
      else if ltb (static_headless_capacity cover) (length message)
      then fails
      else elim (compress message (2 * length cover + 10)) [
        | none ↦ fails
        | some data2 ↦ encode_stream data2 cover
      ]

-- The size of the line end behind `stream`; `past` is the memory behind the buffer.
abbrev pub start_skip : (ℕ → ℕ) → Bytes → ℕ → ℕ
start_skip past cover dp =
    if get_or cover dp (past dp) == b'\r' && get_or cover (dp + 1) (past (dp + 1)) == b'\n'
    then 2
    else if get_or cover dp (past dp) == b'\n'
    then 1
    else 0

-- The size of the line end before `endstream`.
abbrev pub end_skip : Bytes → ℕ → ℕ
end_skip cover end =
    if get_or cover (end - 2) 0 == b'\r' && get_or cover (end - 1) 0 == b'\n'
    then 2
    else if get_or cover (end - 1) 0 == b'\n'
    then 1
    else 0

-- The call of decompress; a size below 0 is a number of bytes that no buffer has.
unfoldable pub inflate : (Bytes → ℕ → Option Bytes) → Bytes → ℕ → ℕ → Run Bytes
inflate decompress dp size skip =
    if ltb size skip
    then behind
    else elim (decompress (take (size - skip) dp) http_payload_buf_size) [
      | none ↦ fails
      | some message ↦ gives message
    ]

-- The body of the loop of decode, behind the line end. A start behind the buffer makes the range of the
-- search wrap.
unfoldable pub decode_body : (Bytes → ℕ → Option Bytes) → Bytes → ℕ → Run Bytes
decode_body decompress cover dp =
    if ltb (length cover) dp then behind else elim (str_in_binary stream_end (drop dp cover)) [
      | none ↦ fails
      | some size ↦ inflate decompress (drop dp cover) size (end_skip cover (dp + size))
    ]

-- The loop of decode, which makes one round.
unfoldable pub decode_stream : (Bytes → ℕ → Option Bytes) → (ℕ → ℕ) → Bytes → Run Bytes
decode_stream decompress past [] = gives []
decode_stream decompress past (c ∷ cs) = elim (str_in_binary stream_begin (c ∷ cs)) [
  | none ↦ fails
  | some start ↦ decode_body decompress (c ∷ cs) (start + 6 + start_skip past (c ∷ cs) (start + 6))
]

-- PDFSteg::decode
unfoldable pub decode : (Bytes → ℕ → Option Bytes) → (ℕ → ℕ) → Bytes → Run Bytes
decode decompress past cover =
    if ltb size_t_ceiling (length cover) then fails else decode_stream decompress past cover
