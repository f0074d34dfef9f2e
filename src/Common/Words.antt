-- ===== src/Common/Words.antt =====
-- Unsigned machine words as native numbers, and numbers in network byte order.
use Prim.Native.Nat.{ℕ, ◌+◌, ◌-◌, ◌*◌, ◌/◌, ◌%◌, ◌^◌, ◌<◌}
use mathlib.Core.Path.{◌≡◌}
use native.Mathlib.Omega.{arith}

abbrev pub IsByte : ℕ → Type 0
IsByte b = b < 256

abbrev pub IsU16 : ℕ → Type 0
IsU16 x = x < 2 ^ 16

abbrev pub IsU32 : ℕ → Type 0
IsU32 x = x < 2 ^ 32

-- uint32_t addition and subtraction
abbrev pub add32 : ℕ → ℕ → ℕ
add32 a b = (a + b) % 2 ^ 32

abbrev pub sub32 : ℕ → ℕ → ℕ
sub32 a b = (a + 2 ^ 32 - b) % 2 ^ 32

-- uint32_t(-1)
abbrev pub minus_one : ℕ
minus_one = 2 ^ 32 - 1

-- The byte of `x` at the bits from `k` on: `(x >> k) & 0xFF`.
abbrev pub byte_at : ℕ → ℕ → ℕ
byte_at x k = x / 2 ^ k % 256

-- A uint32_t and a uint16_t from bytes, the highest first. The parts share no bit, so `|` is `+`.
abbrev pub be32 : ℕ → ℕ → ℕ → ℕ → ℕ
be32 a b c d = a * 2 ^ 24 + b * 2 ^ 16 + c * 2 ^ 8 + d

abbrev pub be16 : ℕ → ℕ → ℕ
be16 a b = a * 2 ^ 8 + b

pub be32_bytes :
    (x : ℕ) → IsU32 x → be32 (byte_at x 24) (byte_at x 16) (byte_at x 8) (byte_at x 0) ≡ x
be32_bytes x h = omega arith

pub be16_bytes : (x : ℕ) → IsU16 x → be16 (byte_at x 8) (byte_at x 0) ≡ x
be16_bytes x h = omega arith
