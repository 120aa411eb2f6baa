-- ===== src/Jtag.antt =====
-- target/sim/cpp/jtag.{hpp,cpp}: the JTAG driver of the SoC testbench, from the pins up to the
-- accesses of memory through the debug module. The testbench and the pins of the device are a
-- parameter.
use Prim.Native.Nat.{bit_or}
use friscv_soc.Common.{
  ℕ, zero, suc, ◌+◌, ◌-◌, ◌*◌, ◌/◌, ◌%◌, ◌^◌, Bool, true, false, not, ◌&&◌, ◌||◌, List, [], ◌∷◌,
  ◌++◌, ltb, leb, ◌==◌, if◌then◌else◌, of_bool,
}
use friscv_soc.Common.Words.{u8, u32, test_bit, word_of}
use friscv_soc.Common.Results.{
  Result, ok, thrown, Act, pure, throw, then_do, ◌>>=◌, ◌>>◌, require, lift, modify,
}
pub mod Debug
pub mod SystemBus
pub mod Tap
pub mod Shift
pub mod Retry
mod Tests

-- What the driver uses of `SocTestbench` and of the pins. An exception of `run_cycles` stays in the
-- state, with the clock standing still from there on; who uses the driver looks for it (`exception`
-- of SocMain), since the driver itself catches none.
pub record Bench (S : Type 0) : Type 0 where
  pub set_data : Bool → Bool → S → S
  pub set_tck : Bool → S → S
  pub tdo : S → Bool
  pub run_cycles : ℕ → S → S

abbrev pub ir_idcode : ℕ
ir_idcode = 0x01

abbrev pub ir_dtmcs : ℕ
ir_dtmcs = 0x10

abbrev pub ir_dmi : ℕ
ir_dmi = 0x11

abbrev pub idcode : ℕ
idcode = 0x00000db3

abbrev pub dmcontrol : ℕ
dmcontrol = 0x10

abbrev pub dmstatus : ℕ
dmstatus = 0x11

abbrev pub sbcs : ℕ
sbcs = 0x38

abbrev pub sbaddress0 : ℕ
sbaddress0 = 0x39

abbrev pub sbdata0 : ℕ
sbdata0 = 0x3c

abbrev pub dmi_busy : ℕ
dmi_busy = 3

abbrev pub sba_word : ℕ
sba_word = 2

-- `encode_dmi`; the three fields stand in separate bits.
unfoldable pub encode_dmi : ℕ → ℕ → ℕ → ℕ
encode_dmi address value operation = address % 128 * 2 ^ 34 + value * 2 ^ 2 + operation % 4

unfoldable pub dmi_status : ℕ → ℕ
dmi_status response = response % 4

unfoldable pub dmi_data : ℕ → ℕ
dmi_data response = u32 (response / 4)

-- `pack_word` and the bytes that `append_word` pushes.
unfoldable pub pack_word : ℕ → ℕ → ℕ → ℕ → ℕ
pack_word b0 b1 b2 b3 = word_of b0 b1 b2 b3

unfoldable pub word_bytes : ℕ → List ℕ
word_bytes w = u8 w ∷ u8 (w / 2 ^ 8) ∷ u8 (w / 2 ^ 16) ∷ u8 (w / 2 ^ 24) ∷ []

module _ {S : Type 0} (bench : Bench S) where
  unfoldable pub pulse : Bool → Bool → S → Bool × S
  pulse tms tdi s =
      let s = bench.set_data tms tdi s in
      (
        bench.tdo s,
        bench.run_cycles 2 (bench.set_tck false (bench.run_cycles 2 (bench.set_tck true s))),
      )

  unfoldable pub move_tap : List Bool → S → S
  move_tap [] s = s
  move_tap (tms ∷ path) s = move_tap path (pulse tms false s).1

  unfoldable pub idle : ℕ → S → S
  idle zero s = s
  idle (suc n) s = idle n (pulse false false s).1

  -- The loop of `shift_bits`, from bit `i` on with `n` bits left.
  unfoldable pub shift_from : ℕ → ℕ → ℕ → ℕ → S → ℕ × S
  shift_from zero i value result s = (result, s)
  shift_from (suc n) i value result s =
      let (b, t) = pulse (n == 0) (test_bit value i) s in
      shift_from n (i + 1) value (result + of_bool b * 2 ^ i) t

  unfoldable pub shift_bits : ℕ → ℕ → S → ℕ × S
  shift_bits value size s = shift_from size 0 value 0 s

  unfoldable pub shift_ir : ℕ → S → S
  shift_ir instruction s =
      let s = move_tap (true ∷ true ∷ false ∷ false ∷ []) s in
      move_tap (true ∷ false ∷ []) (shift_bits instruction 5 s).1

  unfoldable pub shift_dr : ℕ → ℕ → S → ℕ × S
  shift_dr value size s =
      let (result, t) = shift_bits value size (move_tap (true ∷ false ∷ false ∷ []) s) in
      (result, move_tap (true ∷ false ∷ []) t)

  unfoldable pub reset_dmi : S → S
  reset_dmi s = (shift_dr (2 ^ 16) 32 (shift_ir ir_dtmcs s)).1

  -- One round of `dmi_access` up to the response.
  unfoldable pub dmi_transfer : ℕ → S → ℕ × S
  dmi_transfer request s =
      let s = (shift_dr request 41 (shift_ir ir_dmi s)).1 in
      shift_dr (encode_dmi 0 0 0) 41 (idle 8 s)

  -- The loop of `dmi_access`, with `n` retries left.
  unfoldable pub dmi_retry : ℕ → ℕ → Act S ℕ
  dmi_retry zero request s = (thrown "DMI remained busy", s)
  dmi_retry (suc n) request s =
      let (response, t) = dmi_transfer request s in
      elim (dmi_status response == 0) [
        | true ↦ (ok (dmi_data response), t)
        | false ↦ elim (dmi_status response == dmi_busy) [
          | true ↦ dmi_retry n request (reset_dmi t)
          | false ↦ (thrown "DMI transaction failed", t)
        ]
      ]

  unfoldable pub dmi_access : ℕ → ℕ → ℕ → Act S ℕ
  dmi_access address value operation = dmi_retry 8 (encode_dmi address value operation)

  unfoldable pub dmi_read : ℕ → Act S ℕ
  dmi_read address = dmi_access address 0 1

  unfoldable pub dmi_write : ℕ → ℕ → Act S (Unit {0})
  dmi_write address value = do _ ← dmi_access address value 2; pure tt
