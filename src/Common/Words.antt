-- ===== src/Common/Words.antt =====
-- Unsigned machine words as native numbers: the wrap-around of a width is written out.
-- `x & (2 ^ k - 1)` is `x % 2 ^ k`, and `x >> k` is `x / 2 ^ k`.
use Prim.Native.Nat.{ℕ, ◌+◌, ◌-◌, ◌*◌, ◌/◌, ◌%◌, ◌^◌}
use mathlib.Core.Bool.{Bool}
use friscv_soc.Common.Tests.{◌==◌}

abbrev pub u8 : ℕ → ℕ
u8 x = x % 256

abbrev pub u16 : ℕ → ℕ
u16 x = x % 65536

abbrev pub u32 : ℕ → ℕ
u32 x = x % 4294967296

abbrev pub u64 : ℕ → ℕ
u64 x = x % 18446744073709551616

-- `a - b` at 32 bits, for operands of 32 bits.
abbrev pub sub32 : ℕ → ℕ → ℕ
sub32 a b = u32 (a + 4294967296 - b)

-- `(x >> k) & 1`, as a test.
abbrev pub test_bit : ℕ → ℕ → Bool
test_bit x k = (x / 2 ^ k % 2) == 1

-- The 32-bit word of four bytes, the first byte least significant.
abbrev pub word_of : ℕ → ℕ → ℕ → ℕ → ℕ
word_of b0 b1 b2 b3 = b3 * 16777216 + b2 * 65536 + b1 * 256 + b0

-- `a & ~3`.
abbrev pub align4 : ℕ → ℕ
align4 a = a - a % 4
