-- ===== src/Steg/Gif.antt =====
-- `GIFSteg` of src/steg/http_steg_mods/gifSteg.cc: a length of eight bytes and the message stand behind the
-- first comma.
pub mod RoundTrip
use stegotorus.Common.{
  ℕ, zero, suc, ◌+◌, ◌-◌, ltb, ◌==◌, Bool, true, false, if◌then◌else◌, Option, none, some, List, [],
  ◌∷◌, length,
}
use stegotorus.Common.Evbuffer.{Bytes}
use stegotorus.Steg.Memory.{
  Run, gives, fails, asserts, behind, max_msg_buf_size, to_memory, from_memory, write, read, ◌then◌,
}

-- c_image_block_sentinel
abbrev pub image_block_sentinel : ℕ
image_block_sentinel = 0x2c

-- The loop of starting_point over a buffer that is not empty; it does not look at the last byte.
unfoldable pub sentinel_end : Bytes → Option ℕ
sentinel_end [] = none
sentinel_end (b ∷ []) = none
sentinel_end (b ∷ b' ∷ bs) =
    let rest = sentinel_end (b' ∷ bs) in
    if b == image_block_sentinel then some 1 else elim rest [ none ↦ none | some i ↦ some (suc i) ]

-- starting_point, with `none` for -1. Without a byte its bound wraps round and the loop reads on behind
-- the buffer: `beyond` is what it finds there.
unfoldable pub starting_point : Option ℕ → Bytes → Option ℕ
starting_point beyond [] = beyond
starting_point beyond (b ∷ bs) = sentinel_end (b ∷ bs)

-- static_headless_capacity
unfoldable pub static_headless_capacity : Bytes → ℕ
static_headless_capacity [] = 0
static_headless_capacity (b ∷ bs) = elim (starting_point none (b ∷ bs)) [
  | none ↦ 0
  | some from ↦ length (b ∷ bs) - from - 1 - 4
]

unfoldable pub encode : Option ℕ → Bytes → Bytes → Run Bytes
encode beyond message cover =
    if ltb (static_headless_capacity cover) (length message)
    then fails
    else elim (starting_point beyond cover) [
      | none ↦ fails
      | some from ↦
          write cover from (to_memory 8 (length message)) then λ c. write c (from + 8) message
    ]

unfoldable pub decode : Option ℕ → Bytes → Run Bytes
decode beyond cover = elim (starting_point beyond cover) [
  | none ↦ fails
  | some from ↦ read cover from 8 then λ b.
      (let s = from_memory 8 b in
        if ltb s max_msg_buf_size then read cover (from + 8) s else asserts)
]
