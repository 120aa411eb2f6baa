-- ===== src/Common/Wires.antt =====
-- The wires of a serial interface in mode 0 over the periods of one byte, the top bit first.
use mathlib.Core.Path.{◌≡◌, refl, ◌∙◌}
use mathlib.Core.Bool.{Bool, true, ◌&&◌}
use Prim.Native.Nat.{ℕ, zero, suc, ◌+◌, ◌*◌, ◌%◌, ◌<◌}
use native.Mathlib.Omega.{arith}
use friscv_soc.Common.Tests.{◌==◌, ==_iff, &&-true, of_bool, of_bool-injective}
use friscv_soc.Common.Words.{u8, test_bit}
use friscv_soc.Common.Arrays.{holds_to, holds_at}

-- What the wires carry from one period to the next: the bits received, the bit on the line, the
-- card's byte, the host's byte and the bits that the host has read.
pub record Wires : Type 0 where
  pub received : ℕ
  pub line : Bool
  pub sending : ℕ
  pub host : ℕ
  pub read : ℕ

unfoldable pub wire_step : Wires → Wires
wire_step w = record {
  received = u8 (w.received * 2 + of_bool (test_bit w.host 7));
  line = test_bit w.sending 7;
  sending = u8 (w.sending * 2);
  host = u8 (w.host * 2);
  read = w.read * 2 + of_bool w.line;
}

unfoldable pub wires : ℕ → Wires → Wires
wires zero w = w
wires (suc n) w = wires n (wire_step w)

-- Eight bits shifted in push out what was in the shifter before.
shifted_eight :
    (s t1 t2 t3 t4 t5 t6 t7 t8 : ℕ)
    → u8 (
        u8 (
            u8 (u8 (u8 (u8 (u8 (u8 (s * 2 + t1) * 2 + t2) * 2 + t3) * 2 + t4) * 2 + t5) * 2 + t6)
              * 2
            + t7)
          * 2
        + t8)
      ≡ (t1 * 128 + t2 * 64 + t3 * 32 + t4 * 16 + t5 * 8 + t6 * 4 + t7 * 2 + t8) % 256
shifted_eight s t1 t2 t3 t4 t5 t6 t7 t8 = omega arith

-- The wires at a byte's start.
abbrev pub byte_wires : ℕ → ℕ → ℕ → Wires
byte_wires s x b = record {
  received = s;
  line = test_bit b 7;
  sending = u8 (b * 2);
  host = x;
  read = 0;
}

-- The byte read and what is left on the wires after seven periods: checked for every byte.
read_whole : ℕ → Bool
read_whole b =
    let w = wires 7 (byte_wires 0 0 b) in
    (w.read * 2 + of_bool w.line == b)
    && ((w.sending == 0) && (of_bool w.line == of_bool (test_bit b 0)))

read_whole_table : holds_to read_whole 256 ≡ true
unfolding holds_to read_whole wires wire_step
read_whole_table = refl

-- The eight top bits of the host's byte make it up: checked for every byte.
host_whole : ℕ → Bool
host_whole x =
    (of_bool (test_bit (x) 7) * 128
        + of_bool (test_bit (u8 (x * 2)) 7) * 64
        + of_bool (test_bit (u8 (u8 (x * 2) * 2)) 7) * 32
        + of_bool (test_bit (u8 (u8 (u8 (x * 2) * 2) * 2)) 7) * 16
        + of_bool (test_bit (u8 (u8 (u8 (u8 (x * 2) * 2) * 2) * 2)) 7) * 8
        + of_bool (test_bit (u8 (u8 (u8 (u8 (u8 (x * 2) * 2) * 2) * 2) * 2)) 7) * 4
        + of_bool (test_bit (u8 (u8 (u8 (u8 (u8 (u8 (x * 2) * 2) * 2) * 2) * 2) * 2)) 7) * 2
        + of_bool (test_bit (u8 (u8 (u8 (u8 (u8 (u8 (u8 (x * 2) * 2) * 2) * 2) * 2) * 2) * 2)) 7))
      % 256
    == x

host_whole_table : holds_to host_whole 256 ≡ true
unfolding holds_to host_whole
host_whole_table = refl

pub host_whole_lem :
    (s x b : ℕ)
    → x < 256
    → let w = wires 7 (byte_wires s x b) in u8 (w.received * 2 + of_bool (test_bit w.host 7)) ≡ x
unfolding wires wire_step host_whole
host_whole_lem s x b h =
    shifted_eight s (of_bool (test_bit (x) 7)) (of_bool (test_bit (u8 (x * 2)) 7))
      (of_bool (test_bit (u8 (u8 (x * 2) * 2)) 7))
      (of_bool (test_bit (u8 (u8 (u8 (x * 2) * 2) * 2)) 7))
      (of_bool (test_bit (u8 (u8 (u8 (u8 (x * 2) * 2) * 2) * 2)) 7))
      (of_bool (test_bit (u8 (u8 (u8 (u8 (u8 (x * 2) * 2) * 2) * 2) * 2)) 7))
      (of_bool (test_bit (u8 (u8 (u8 (u8 (u8 (u8 (x * 2) * 2) * 2) * 2) * 2) * 2)) 7))
      (of_bool (test_bit (u8 (u8 (u8 (u8 (u8 (u8 (u8 (x * 2) * 2) * 2) * 2) * 2) * 2) * 2)) 7))
    ∙ (==_iff _ x).0 (holds_at host_whole 256 x h host_whole_table)

pub read_whole_lem :
    (s x b : ℕ)
    → b < 256
    → let w = wires 7 (byte_wires s x b) in
      (w.read * 2 + of_bool w.line ≡ b) × (w.sending ≡ 0) × (w.line ≡ test_bit b 0)
unfolding wires wire_step read_whole
read_whole_lem s x b h =
    let (whole, rest) = &&-true _ _ (holds_at read_whole 256 b h read_whole_table) in
    let (empty, low) = &&-true _ _ rest in
    ((==_iff _ b).0 whole, (==_iff _ 0).0 empty, of_bool-injective _ (test_bit b 0) low)
