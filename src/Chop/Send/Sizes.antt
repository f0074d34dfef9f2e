-- ===== src/Chop/Send/Sizes.antt =====
-- The sizes of a block in src/protocol/chop.cc.
use stegotorus.Common.{
  ℕ, ◌+◌, ◌-◌, ◌<◌, ◌≤◌, ◌≡◌, refl, arith, Bool, true, false, ◌||◌, ◌&&◌, ltb, leb, Bool-cases, inl,
  inr, length, aborts,
}
use stegotorus.Common.Evbuffer.{Bytes, Evbuffer}
use stegotorus.Block.Header.{BlockCipher}
use stegotorus.Block.Transmit.{GcmEncryptor}
use stegotorus.Chop.{ChopConn, shake, section_len, min_block_size, max_block_size}
use stegotorus.Chop.Send.{ChopCircuit, split_block, send_block_to, send_sized}

-- Data and padding fill the room; both fit their fields, if the room is a block's and the data are not
-- so few that more than 65535 bytes of padding are left.
pub split_block_bounds :
    (room avail : ℕ) (eof : Bool)
    → room ≤ section_len + section_len
    → room ≤ avail + section_len
    → ((split_block room avail eof).0 ≤ avail)
      × ((split_block room avail eof).0 ≤ section_len)
      × ((split_block room avail eof).0 + (room - (split_block room avail eof).0) ≡ room)
      × (room - (split_block room avail eof).0 ≤ section_len)
      × ((split_block room avail eof).1 ≡ true → (split_block room avail eof).0 ≡ avail)
split_block_bounds room avail eof h k =
    (ground arith, ground arith, ground arith, ground arith, λ e. ground arith)

-- A steganography module that asks for more than 65535 bytes over the data that there is, which its
-- contract allows, makes the circuit abort.
pub send_sized_aborts :
    (ev : Evbuffer) (ec : BlockCipher) (gc : GcmEncryptor) (deliver : Bytes → Bool)
    (op op_last blocksize : ℕ) (conn : ChopConn) (payload : Bytes) (c : ChopCircuit)
    → length payload + section_len + (min_block_size + shake conn) < blocksize
    → send_sized ev ec gc deliver op op_last conn blocksize payload c ≡ aborts
unfolding send_sized send_block_to
send_sized_aborts ev ec gc deliver op op_last blocksize conn payload c h =
    let lo = min_block_size + shake conn in
    let room = blocksize - lo in
    let avail = length payload in
    elim (Bool-cases (leb lo blocksize && leb blocksize (max_block_size + shake conn))) [
      | inl in_range ↦
          (let all : (ltb room avail || ltb section_len avail) ≡ false = ground arith in
            let fits : leb avail section_len ≡ true = ground arith in
            let much : leb (room - avail) section_len ≡ false = ground arith in
            rw (in_range, all, fits, much) refl)
      | inr out_of_range ↦ rw out_of_range refl
    ]
