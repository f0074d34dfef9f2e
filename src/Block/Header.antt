-- ===== src/Block/Header.antt =====
-- The block header of src/protocol/chop_blk.h, and the codec of src/protocol/chop_blk.cc. The codec's
-- cipher is a parameter: the AES of one 16-byte block, as crypt.h offers it.
pub mod RoundTrip
use stegotorus.Common.{
  ℕ, ◌+◌, ◌*◌, ◌/◌, ◌%◌, ◌^◌, Bool, true, false, ◌&&◌, ◌||◌, [], ◌∷◌, leb, ltb, ◌==◌, if◌then◌else◌,
  byte_at, be32, be16, sub32, get_or,
}
use stegotorus.Common.Evbuffer.{Bytes}
use stegotorus.Block.Opcode
use stegotorus.Block.Opcode.{opcode_valid}

-- `ecb_encryptor` and `ecb_decryptor`
pub record BlockCipher : Type 0 where
  pub encrypt : Bytes → Bytes
  pub decrypt : Bytes → Bytes

-- HEADER_LEN and TRAILER_LEN
abbrev pub header_len : ℕ
header_len = 16

abbrev pub trailer_len : ℕ
trailer_len = 16

-- `class header`
pub record Header : Type 0 where
  pub s : ℕ
  pub d : ℕ
  pub p : ℕ
  pub f : ℕ
  pub r : ℕ

-- The default constructor.
abbrev pub invalid : Header
invalid = record { s = 0; d = 0; p = 0; f = Opcode.xxx; r = 0 }

-- The constructor from the fields.
unfoldable pub header : ℕ → ℕ → ℕ → ℕ → Header
header s d p f = if opcode_valid f then record { s = s; d = d; p = p; f = f; r = 0 } else invalid

unfoldable pub total_len : Header → ℕ
total_len h = header_len + trailer_len + h.d + h.p

unfoldable pub valid : Header → Bool
valid h = if h.f == Opcode.xxx then false else true

-- What `encode` gives to the cipher.
abbrev pub clear_bytes : Header → Bytes
clear_bytes h =
    byte_at h.s 24
    ∷ byte_at h.s 16
    ∷ byte_at h.s 8
    ∷ byte_at h.s 0
    ∷ byte_at h.d 8
    ∷ byte_at h.d 0
    ∷ byte_at h.p 8
    ∷ byte_at h.p 0
    ∷ byte_at h.f 0
    ∷ h.r
    ∷ 0
    ∷ 0
    ∷ 0
    ∷ 0
    ∷ 0
    ∷ 0
    ∷ []

unfoldable pub encode : BlockCipher → Header → Bytes
encode c h = c.encrypt (clear_bytes h)

-- The fields that `decode` reads from the clear text.
abbrev pub fields : Bytes → Header
fields clear = record {
  s = be32 (get_or clear 0 0) (get_or clear 1 0) (get_or clear 2 0) (get_or clear 3 0);
  d = be16 (get_or clear 4 0) (get_or clear 5 0);
  p = be16 (get_or clear 6 0) (get_or clear 7 0);
  f = get_or clear 8 0;
  r = get_or clear 9 0;
}

-- `!(clear[10] | … | clear[15])`: all six bytes are zero.
abbrev pub check_ok : Bytes → Bool
check_ok clear =
    get_or clear 10 0 == 0
    && get_or clear 11 0 == 0
    && get_or clear 12 0 == 0
    && get_or clear 13 0 == 0
    && get_or clear 14 0 == 0
    && get_or clear 15 0 == 0

-- `!(delta & ~uint32_t(0xFF))` for `delta = s_ - window`: the bits above the lowest eight.
abbrev pub delta_ok : ℕ → ℕ → Bool
delta_ok s window = sub32 s window / 2 ^ 8 * 2 ^ 8 == 0

-- The decoding constructor. It tests the member `f` and not the `f_` that it has just read; `f_mem`
-- is what the storage of that member holds before the constructor has written it.
unfoldable pub decode : BlockCipher → ℕ → Bytes → ℕ → Header
decode c f_mem ciphr window =
    let clear = c.decrypt ciphr in
    let h = fields clear in
    let f_ok = leb Opcode.reserved0 f_mem && ltb f_mem Opcode.steg0 in
    let ok = check_ok clear || delta_ok h.s window || f_ok in if ok then h else invalid

-- `new_plen` comes as a `uint16_t`.
unfoldable pub prepare_retransmit : Header → ℕ → Bool × Header
prepare_retransmit h new_plen =
    if h.r == 255 then (false, h) else (true, record h { r = h.r + 1; p = new_plen % 2 ^ 16 })
