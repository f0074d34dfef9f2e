-- ===== src/Steg/Jpg.antt =====
-- `JPGSteg` of src/steg/http_steg_mods/jpgSteg.cc: a length of four bytes and the message stand behind
-- the header of the first scan.
pub mod RoundTrip
use stegotorus.Common.{
  ℕ, zero, suc, ◌+◌, ◌-◌, ◌*◌, ◌%◌, ◌^◌, ltb, ◌==◌, ◌&&◌, Bool, true, false, if◌then◌else◌, Option,
  none, some, List, [], ◌∷◌, length, get_or,
}
use stegotorus.Common.Evbuffer.{Bytes}
use stegotorus.Steg.Memory.{
  Run, gives, fails, asserts, behind, max_msg_buf_size, to_memory, from_memory, write, read, ◌then◌,
}

-- FRAME and FRAME_SCAN
abbrev pub frame : ℕ
frame = 0xff

abbrev pub frame_scan : ℕ
frame_scan = 0xda

-- The loop of starting_point.
unfoldable pub scan_marker : Bytes → Option ℕ
scan_marker [] = none
scan_marker (b ∷ []) = none
scan_marker (b ∷ b' ∷ bs) =
    let rest = scan_marker (b' ∷ bs) in
    if b == frame && b' == frame_scan
    then some 0
    else elim rest [ none ↦ none | some i ↦ some (suc i) ]

-- SWAP of the short behind the marker; `past` is the memory behind the buffer.
abbrev pub frame_length : (ℕ → ℕ) → Bytes → ℕ → ℕ
frame_length past raw lm =
    get_or raw (lm + 2) (past (lm + 2)) * 256 + get_or raw (lm + 3) (past (lm + 3))

-- starting_point, with `none` for -1. A marker at the first byte is none.
unfoldable pub starting_point : (ℕ → ℕ) → Bytes → Option ℕ
starting_point past raw = elim (scan_marker raw) [
  | none ↦ none
  | some zero ↦ none
  | some (suc i) ↦
      let start = suc i + 2 + frame_length past raw (suc i) in
      if ltb (length raw) (start + 6) then none else some start
]

unfoldable pub static_headless_capacity : (ℕ → ℕ) → Bytes → ℕ
static_headless_capacity past cover = elim (starting_point past cover) [
  | none ↦ 0
  | some from ↦ length cover - from - 2 - 4
]

unfoldable pub encode : (ℕ → ℕ) → Bytes → Bytes → Run Bytes
encode past message cover =
    if ltb (length message) max_msg_buf_size
    then (if ltb (static_headless_capacity past cover) (length message)
        then fails
        else elim (starting_point past cover) [
          | none ↦ fails
          | some from ↦
              write cover from (to_memory 4 (length message)) then λ c. write c (from + 4) message
        ])
    else asserts

unfoldable pub decode : (ℕ → ℕ) → Bytes → Run Bytes
decode past cover = elim (starting_point past cover) [
  | none ↦ fails
  | some from ↦ read cover from 4 then λ b.
      (let s = from_memory 4 b % 2 ^ 32 in
        if ltb max_msg_buf_size s then fails else read cover (from + 4) s)
]
