-- ===== src/Common/Bits.antt =====
-- Bits of a byte: what `|` and `&` do to a single bit, checked by evaluation over all bytes.
use Prim.Native.Nat.{ℕ, zero, suc, ◌^◌, ◌<◌, bit_and, bit_or}
use mathlib.Core.Path.{◌≡◌, refl}
use mathlib.Core.Logic.{inl, inr}
use mathlib.Core.Bool.{Bool, true, false, not, ◌&&◌}
use native.Mathlib.Omega.{arith}
use stegotorus.Common.Tests.{ltb, ◌==◌, if◌then◌else◌, Bool-cases}

-- A test passes at every number under a bound.
unfoldable pub under : (ℕ → Bool) → ℕ → Bool
under test zero = true
under test (suc bound) = elim (test bound) [ true ↦ under test bound | false ↦ false ]

pub under→true :
    (test : ℕ → Bool) {i : ℕ} (bound : ℕ) → i < bound → under test bound ≡ true → test i ≡ true
unfolding under
under→true test zero l e = elim l [ ]
under→true test {i} (suc bound) l e = elim (Bool-cases (i == bound)) [
  | inl top ↦ ground arith
  | inr inner ↦ ground (arith, under→true test {i = i} bound (ground arith))
]

-- `b & (1 << j)`, as a condition
abbrev pub test_bit : ℕ → ℕ → Bool
test_bit b j = not (bit_and b (2 ^ j) == 0)

abbrev beq : Bool → Bool → Bool
beq true b = b
beq false b = not b

beq→eq : (a b : Bool) → beq a b ≡ true → a ≡ b
beq→eq a b h = ground arith

&&-true : (a b : Bool) → (a && b) ≡ true → (a ≡ true) × (b ≡ true)
&&-true a b h = ground arith

set_bit_row : ℕ → ℕ → ℕ → Bool
set_bit_row b k j =
    ltb (bit_or b (2 ^ k)) 256
    && beq (test_bit (bit_or b (2 ^ k)) j) (if j == k then true else test_bit b j)

set_bit_table : under (λ b. under (λ k. under (set_bit_row b k) 8) 8) 256 ≡ true
unfolding under set_bit_row
set_bit_table = refl

set_bit_row-true : (b k j : ℕ) → b < 256 → k < 8 → j < 8 → set_bit_row b k j ≡ true
set_bit_row-true b k j hb hk hj = under→true (set_bit_row b k) 8 hj (
    under→true (λ k. under (set_bit_row b k) 8) 8 hk
      (under→true (λ b. under (λ k. under (set_bit_row b k) 8) 8) 256 hb set_bit_table))

pub set_bit-lt : (b k : ℕ) → b < 256 → k < 8 → bit_or b (2 ^ k) < 256
unfolding set_bit_row
set_bit-lt b k hb hk = ground (arith, set_bit_row-true b k 0)

pub test_bit-set_bit :
    (b k j : ℕ)
    → b < 256
    → k < 8
    → j < 8
    → test_bit (bit_or b (2 ^ k)) j ≡ (if j == k then true else test_bit b j)
unfolding set_bit_row
test_bit-set_bit b k j hb hk hj = beq→eq _ _ (&&-true _ _ (set_bit_row-true b k j hb hk hj)).1
