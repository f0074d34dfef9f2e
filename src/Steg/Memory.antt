-- ===== src/Steg/Memory.antt =====
-- Covers in memory, for the modules of src/steg/http_steg_mods that write a length and a message into one
-- place. A machine of 64 bits that stores the low byte of a number first is assumed, as the code does.
pub mod Places
use stegotorus.Common.{
  ◌==◌, ◌||◌, ℕ, zero, suc, ◌+◌, ◌*◌, ◌/◌, ◌%◌, Bool, true, false, leb, if◌then◌else◌, List, [],
  ◌∷◌, ◌++◌, length, take, drop,
}
use stegotorus.Common.Evbuffer.{Bytes}

-- How a call ends: with a result, with -1, in a failed assert, with an access behind the end of a
-- buffer, or with a shift into the sign of an int, behind which the model does not follow it.
pub data Run (A : Type 0) : Type 0 where
  gives : A → Run A
  fails : Run A
  asserts : Run A
  behind : Run A
  overflows : Run A

-- c_MAX_MSG_BUF_SIZE of src/steg/http_steg_mods/file_steg.h
abbrev pub max_msg_buf_size : ℕ
max_msg_buf_size = 131103

-- The bytes of a number in memory.
unfoldable pub to_memory : ℕ → ℕ → Bytes
to_memory zero n = []
to_memory (suc size) n = (n % 256) ∷ to_memory size (n / 256)

unfoldable pub from_memory : ℕ → Bytes → ℕ
from_memory zero bytes = 0
from_memory (suc size) [] = 0
from_memory (suc size) (b ∷ bytes) = b + 256 * from_memory size bytes

-- memcpy of `bytes`, which may be none, to the place `from` of a buffer.
unfoldable pub write : Bytes → ℕ → Bytes → Run Bytes
write buf from bytes =
    if length bytes == 0 || leb (from + length bytes) (length buf)
    then gives (take from buf ++ (bytes ++ drop (from + length bytes) buf))
    else behind

-- memcpy of `n` bytes out of a buffer.
unfoldable pub read : Bytes → ℕ → ℕ → Run Bytes
read buf from n =
    if n == 0 || leb (from + n) (length buf) then gives (take n (drop from buf)) else behind

infixl 5 ◌then◌
abbrev pub ◌then◌ : {A B : Type 0} → Run A → (A → Run B) → Run B
gives a then f = f a
fails then f = fails
asserts then f = asserts
behind then f = behind
overflows then f = overflows
