-- ===== src/Steg/Png.antt =====
-- `PNGSteg` and `PNGChunkData` of src/steg/http_steg_mods/pngSteg.cc and pngSteg.h: a length of four bytes
-- and the message stand in an IDAT chunk. A chunk that the constructor finds has no payload_end, so
-- that get_next_IDAT_chunk finds none behind it, and each loop over chunks makes one round.
pub mod RoundTrip
use stegotorus.Common.{
  ℕ, zero, suc, ◌+◌, ◌-◌, ◌*◌, ◌^◌, ltb, leb, ◌==◌, ◌&&◌, Bool, true, false, if◌then◌else◌, Option,
  none, some, List, [], ◌∷◌, ◌++◌, length, take, get_or,
}
use stegotorus.Common.Evbuffer.{Bytes}
use stegotorus.Steg.Memory.{
  Run, gives, fails, overflows, max_msg_buf_size, to_memory, from_memory, write, read, ◌then◌,
}

-- chunk_offset, with `none` for 0, and length.
pub record PngChunkData : Type 0 where
  pub chunk_offset : Option ℕ
  pub chunk_length : ℕ

abbrev pub no_chunk : PngChunkData
no_chunk = record { chunk_offset = none; chunk_length = 0 }

module _ (past : ℕ → ℕ) (cover : Bytes) where
  -- A byte of the cover, or of the memory behind it.
  abbrev pub byte : ℕ → ℕ
  byte i = get_or cover i (past i)

  -- compute_length. A first byte of 128 and more is shifted into the sign of an int: `none`. The model
  -- does not say what becomes of the pointers then.
  unfoldable pub compute_length : ℕ → Option ℕ
  compute_length o =
      if leb 128 (byte o)
      then none
      else some (byte o * 2 ^ 24 + byte (o + 1) * 2 ^ 16 + byte (o + 2) * 2 ^ 8 + byte (o + 3))

  abbrev pub is_idat : ℕ → Bool
  is_idat o =
      byte (o + 4) == b'I' && byte (o + 5) == b'D' && byte (o + 6) == b'A' && byte (o + 7) == b'T'

  -- The loop of get_next_IDAT_chunk; the first argument bounds its rounds. At the end of the payload the
  -- chunk keeps the last offset.
  unfoldable pub idat_from : ℕ → ℕ → ℕ → Run PngChunkData
  idat_from zero o len = gives no_chunk
  idat_from (suc rounds) o len =
      if leb (length cover) o
      then gives (record { chunk_offset = some o; chunk_length = len })
      else if is_idat o
      then gives (record { chunk_offset = some o; chunk_length = len })
      else if ltb (length cover) (o + len + 12)
      then gives no_chunk
      else elim (compute_length (o + len + 12)) [
        | none ↦ overflows
        | some next ↦ idat_from rounds (o + len + 12) next
      ]

  -- get_next_IDAT_chunk, of a chunk with the end of the cover as payload_end, into a new chunk. Each round
  -- passes twelve bytes.
  unfoldable pub get_next_idat_chunk : ℕ → ℕ → Run PngChunkData
  get_next_idat_chunk o len =
      if ltb (length cover) (o + len + 12)
      then gives no_chunk
      else elim (compute_length (o + len + 12)) [
        | none ↦ overflows
        | some next ↦
            if ltb (length cover) (o + len + 12 + next + 12)
            then gives no_chunk
            else idat_from (length cover + 1) (o + len + 12) next
      ]

  -- The constructor, at c_magic_header_length.
  unfoldable pub first_chunk : Run PngChunkData
  first_chunk = elim (compute_length 8) [ none ↦ overflows | some len ↦ get_next_idat_chunk 8 len ]

  unfoldable pub static_headless_capacity : Run ℕ
  static_headless_capacity =
      if leb (length cover) 0
      then gives 0
      else first_chunk then λ c. elim c.chunk_offset [
        | none ↦ gives 0
        | some o ↦ gives (if leb c.chunk_length 4 then 0 else c.chunk_length - 4)
      ]

  -- The place of the data behind the header of a chunk.
  abbrev pub fill : ℕ → ℕ → Bytes → Run Bytes
  fill o len lengthed_data = write cover (o + 8) (take len lengthed_data) then λ out.
      if ltb len (length lengthed_data) then fails else gives out

  unfoldable pub encode : Bytes → Run Bytes
  encode message =
      if ltb max_msg_buf_size (length message)
      then fails
      else first_chunk then λ c. elim c.chunk_offset [
        | none ↦ fails
        | some o ↦ fill o c.chunk_length (to_memory 4 (length message) ++ message)
      ]

  -- The part of decode behind the four bytes of the length.
  abbrev pub recover : ℕ → ℕ → ℕ → Run Bytes
  recover o len data_length =
      if ltb max_msg_buf_size data_length
      then fails
      else read cover (o + 8 + 4) (if leb data_length (len - 4) then data_length else len - 4)
        then λ data1. (if ltb (len - 4) data_length then fails else gives data1)

  unfoldable pub decode : Run Bytes
  decode = first_chunk then λ c. elim c.chunk_offset [
    | none ↦ fails
    | some o ↦
        if ltb c.chunk_length 4
        then fails
        else read cover (o + 8) 4 then λ b. recover o c.chunk_length (from_memory 4 b)
  ]
