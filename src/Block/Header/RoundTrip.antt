-- ===== src/Block/Header/RoundTrip.antt =====
-- What the decoding constructor of `header` makes of a block header (src/protocol/chop_blk.cc).
use stegotorus.Common.{ℕ, ◌≡◌, refl, arith, IsByte, IsU16, IsU32, length, be32_bytes, be16_bytes}
use stegotorus.Common.Evbuffer.{Bytes}
use stegotorus.Block.Header.{BlockCipher, Header, clear_bytes, encode, decode, fields}

-- A block comes back from the cipher as it went in.
abbrev pub IsInverse : BlockCipher → Type 0
IsInverse c = (b : Bytes) → length b ≡ 16 → c.decrypt (c.encrypt b) ≡ b

-- The fields fit their types.
pub record IsWire (h : Header) : Type 0 where
  pub s_fits : IsU32 h.s
  pub d_fits : IsU16 h.d
  pub p_fits : IsU16 h.p
  pub f_fits : IsByte h.f
  pub r_fits : IsByte h.r

fields-clear_bytes : (h : Header) → IsWire h → fields (clear_bytes h) ≡ h
fields-clear_bytes h w = ground (arith, be32_bytes h.s, be16_bytes h.d, be16_bytes h.p)

-- With a cipher that decrypts every 16-byte block to what was encrypted, a header whose fields fit
-- their types is read back by the decoding constructor from what `encode` wrote, whatever the
-- receive window and the old contents of the member `f` are.
pub decode-encode :
    (c : BlockCipher) (f_mem window : ℕ) (h : Header)
    → IsInverse c
    → IsWire h
    → decode c f_mem (encode c h) window ≡ h
unfolding decode encode
decode-encode c f_mem window h inv w = rw (inv (clear_bytes h) refl) (fields-clear_bytes h w)
