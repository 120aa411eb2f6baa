-- ===== src/Jtag/Debug.antt =====
-- The debug module as the driver uses it: `initialize`, `halt`, `resume`, `reset_soc` and the
-- accesses of memory, over the reads and writes of the module's registers.
use friscv_soc.Common.{
  ℕ, zero, suc, ◌+◌, ◌*◌, ◌/◌, ◌%◌, ◌^◌, true, false, ◌&&◌, List, [], ◌∷◌, ◌++◌, leb, ◌==◌,
}
use friscv_soc.Common.Words.{u8, u32, test_bit}
use friscv_soc.Common.Results.{Act, pure, throw, ◌>>=◌, ◌>>◌, require, lift, modify}
use friscv_soc.Jtag.{
  Bench, ir_idcode, ir_dtmcs, idcode, dmcontrol, dmstatus, sbcs, sbaddress0, sbdata0, sba_word,
  pack_word, word_bytes, move_tap, shift_ir, shift_dr, dmi_read, dmi_write,
}

-- The registers of the debug module, and the clock.
pub record Dmi (S : Type 0) : Type 0 where
  pub read : ℕ → Act S ℕ
  pub write : ℕ → ℕ → Act S (Unit {0})
  pub run_cycles : ℕ → S → S

unfoldable pub jtag_dmi : {S : Type 0} → Bench S → Dmi S
jtag_dmi bench = record {
  read = dmi_read bench;
  write = dmi_write bench;
  run_cycles = bench.run_cycles;
}

-- `Jtag::initialize`, on the bench itself.
module _ {S : Type 0} (bench : Bench S) where
  unfoldable pub read_ir : ℕ → S → ℕ × S
  read_ir instruction s =
      let (value, t) = shift_dr bench 0 32 (shift_ir bench instruction s) in (u32 value, t)

  unfoldable pub initialize : Act S (Unit {0})
  initialize = do
    modify (move_tap bench (true ∷ true ∷ true ∷ true ∷ true ∷ true ∷ false ∷ []))
    code ← lift (read_ir ir_idcode)
    require (code == idcode) "unexpected JTAG IDCODE"
    dtmcs ← lift (read_ir ir_dtmcs)
    require ((dtmcs % 16 == 1) && (dtmcs / 2 ^ 4 % 64 == 7)) "unsupported JTAG DTM"
    dmi_write bench dmcontrol 1
    status ← dmi_read bench sbcs
    require ((status / 2 ^ 29 % 8 == 1) && leb 32 (status / 2 ^ 5 % 128) && test_bit status 2)
        "unsupported system bus access"

module _ {S : Type 0} (dmi : Dmi S) where
  -- `DM_ACTIVE` is 1.
  unfoldable pub wait_dmstatus : ℕ → ℕ → Act S (Unit {0})
  wait_dmstatus zero bit = throw "debug module operation timed out"
  wait_dmstatus (suc n) bit = dmi.read dmstatus >>= λ status. elim (test_bit status bit) [
    | true ↦ pure tt
    | false ↦ modify (dmi.run_cycles 8) >> wait_dmstatus n bit
  ]

  unfoldable pub halt : Act S (Unit {0})
  halt = do dmi.write dmcontrol (1 + 2 ^ 31); wait_dmstatus 1000 8; dmi.write dmcontrol 1

  unfoldable pub resume : Act S (Unit {0})
  resume = do
    dmi.write dmcontrol (1 + 2 ^ 30)
    wait_dmstatus 1000 16
    dmi.write dmcontrol 1
    wait_dmstatus 1000 10

  unfoldable pub reset_soc : Act S (Unit {0})
  reset_soc = do
    dmi.write dmcontrol 3
    modify (dmi.run_cycles 16)
    dmi.write dmcontrol 1
    modify (dmi.run_cycles 32)

  -- The loop of `wait_sba`, with `n` rounds left.
  unfoldable pub wait_sba_from : ℕ → Act S (Unit {0})
  wait_sba_from zero = throw "system bus transaction timed out"
  wait_sba_from (suc n) = dmi.read sbcs >>= λ status. elim (test_bit status 21) [
    | true ↦ wait_sba_from n
    | false ↦ elim (test_bit status 22) [
      | true ↦ throw "system bus busy error"
      | false ↦ elim (status / 2 ^ 12 % 8 == 0) [
        | true ↦ pure tt
        | false ↦ throw "system bus transaction failed"
      ]
    ]
  ]

  unfoldable pub wait_sba : Act S (Unit {0})
  wait_sba = wait_sba_from 1000

  unfoldable pub sba_read : ℕ → ℕ → Act S ℕ
  sba_read address access = do
    dmi.write sbcs (access * 2 ^ 17 + 2 ^ 20)
    dmi.write sbaddress0 address
    wait_sba
    dmi.read sbdata0

  unfoldable pub sba_write : ℕ → ℕ → ℕ → Act S (Unit {0})
  sba_write address value access = do
    dmi.write sbcs (access * 2 ^ 17)
    dmi.write sbaddress0 address
    dmi.write sbdata0 value
    wait_sba

  -- The loop of `read_memory`, by the size that is left; the bytes read so far stand before.
  unfoldable pub read_memory : ℕ → ℕ → Act S (List ℕ)
  read_memory address zero = pure []
  read_memory address (suc (suc (suc (suc n)))) = elim (address % 4 == 0) [
    | true ↦ do
      word ← sba_read address sba_word
      rest ← read_memory (u32 (address + 4)) n
      pure (word_bytes word ++ rest)
    | false ↦ do
      byte ← sba_read address 0
      rest ← read_memory (u32 (address + 1)) (suc (suc (suc n)))
      pure (u8 byte ∷ rest)
  ]
  read_memory address (suc n) = do
    byte ← sba_read address 0
    rest ← read_memory (u32 (address + 1)) n
    pure (u8 byte ∷ rest)

  -- The loop of `write_memory`, by the bytes that are left.
  unfoldable pub write_memory : ℕ → List ℕ → Act S (Unit {0})
  write_memory address [] = pure tt
  write_memory address (b0 ∷ b1 ∷ b2 ∷ b3 ∷ bytes) = elim (address % 4 == 0) [
    | true ↦
        sba_write address (pack_word b0 b1 b2 b3) sba_word >> write_memory (u32 (address + 4)) bytes
    | false ↦ sba_write address b0 0 >> write_memory (u32 (address + 1)) (b1 ∷ b2 ∷ b3 ∷ bytes)
  ]
  write_memory address (b ∷ bytes) = sba_write address b 0 >> write_memory (u32 (address + 1)) bytes
