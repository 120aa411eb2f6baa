-- ===== src/Jtag/SystemBus.antt =====
-- The system bus access of the RISC-V debug module, as its specification describes the registers
-- that the driver uses, and what a debug module must do for the driver to reach the memory.
use friscv_soc.Common.{
  ℕ, zero, suc, ◌+◌, ◌-◌, ◌/◌, ◌%◌, ◌^◌, ◌*◌, ◌<◌, ◌≤◌, ◌≡◌, refl, Bool, true, false, List, [], ◌∷◌,
  ◌==◌, if◌then◌else◌,
}
use friscv_soc.Common.Words.{u8, test_bit, word_of}
use friscv_soc.Common.Arrays.{update}
use friscv_soc.Common.Results.{ok}
use friscv_soc.Jtag.{sbcs, sbaddress0, sbdata0, sba_word}
use friscv_soc.Jtag.Debug.{Dmi}
pub mod Wait
pub mod Memory
pub mod Read

-- The access size, whether an address triggers a read, the address, the data register, the rounds
-- for which the bus stays busy, and the memory behind it.
pub record Bus : Type 0 where
  pub access : ℕ
  pub read_on_address : Bool
  pub address : ℕ
  pub held : ℕ
  pub busy : ℕ
  pub mem : ℕ → ℕ

abbrev pub load : (ℕ → ℕ) → ℕ → ℕ → ℕ
load mem access a =
    if access == sba_word then word_of (mem a) (mem (a + 1)) (mem (a + 2)) (mem (a + 3)) else mem a

abbrev pub store : (ℕ → ℕ) → ℕ → ℕ → ℕ → ℕ → ℕ
store mem access a v =
    if access == sba_word
    then update
        (update (update (update mem a (u8 v)) (a + 1) (u8 (v / 2 ^ 8))) (a + 2) (u8 (v / 2 ^ 16)))
        (a + 3) (u8 (v / 2 ^ 24))
    else update mem a (u8 v)

-- A write of a register; an access keeps the bus busy for `latency` reads of the status.
unfoldable pub reg_write : ℕ → ℕ → ℕ → Bus → Bus
reg_write latency r v b =
    if r == sbcs
    then record b { access = v / 2 ^ 17 % 8; read_on_address = test_bit v 20 }
    else if r == sbaddress0
    then (if b.read_on_address
        then record b { address = v; held = load b.mem b.access v; busy = latency }
        else record b { address = v })
    else if r == sbdata0
    then record b { mem = store b.mem b.access b.address v; busy = latency }
    else b

-- The status register: the version 1, the busy bit, no error, what an address triggers, the access
-- size, and in the twelve lowest bits the capabilities: the width of an address and the sizes.
unfoldable pub status_of : ℕ → Bus → ℕ
status_of caps b =
    let busy = if b.busy == 0 then 0 else 2 ^ 21 in
    let read_on_address = if b.read_on_address then 2 ^ 20 else 0 in
    2 ^ 29 + busy + read_on_address + b.access % 8 * 2 ^ 17 + caps % 2 ^ 12

-- The debug module answers every access, and acts on the bus `bus` by its registers. Its
-- capabilities are those that `initialize` asks for: an address has 32 bits or more, and an access
-- can have the size of a word.
pub record IsSystemBus {S : Type 0} (dmi : Dmi S) (latency : ℕ) (bus : S → Bus) : Type 0 where
  pub caps : ℕ
  pub wide : 32 ≤ caps / 2 ^ 5 % 2 ^ 7
  pub has_words : test_bit caps 2 ≡ true
  pub write_ok : (r v : ℕ) (s : S) → (dmi.write r v s).0 ≡ ok tt
  pub write_bus : (r v : ℕ) (s : S) → bus (dmi.write r v s).1 ≡ reg_write latency r v (bus s)
  pub status_ok : (s : S) → (dmi.read sbcs s).0 ≡ ok (status_of caps (bus s))
  pub status_bus : (s : S) → bus (dmi.read sbcs s).1 ≡ record (bus s) { busy = (bus s).busy - 1 }
  pub data_ok : (s : S) → (dmi.read sbdata0 s).0 ≡ ok (bus s).held
  pub data_bus : (s : S) → bus (dmi.read sbdata0 s).1 ≡ bus s
