-- ===== src/Dut.antt =====
-- target/sim/cpp/dut.hpp: the pins of the simulated SoC that the device models read and drive. The
-- SoC itself is generated from the hardware description, so its ports are the fields of a record.
use friscv_soc.Common.{ℕ, ◌+◌, ◌-◌, ◌*◌, ◌/◌, ◌%◌, ◌^◌, Bool, not, ◌&&◌, ◌==◌, if◌then◌else◌}

-- The ports of `Vvernii_soc_sim` that these models use, as integers.
pub record Dut : Type 0 where
  pub clk_i : ℕ
  pub qspi0_sck_o : ℕ
  pub qspi0_cs_o : ℕ
  pub qspi0_sd_o : ℕ
  pub qspi0_sd_i : ℕ
  pub jtag_tdo_o : ℕ
  pub jtag_tdo_oe_o : ℕ

-- `x != 0`
abbrev pub nonzero : ℕ → Bool
nonzero x = not (x == 0)

unfoldable pub jtag_tdo : Dut → Bool
jtag_tdo top = nonzero top.jtag_tdo_oe_o && nonzero top.jtag_tdo_o

unfoldable pub qspi_sck : Dut → Bool
qspi_sck top = nonzero top.qspi0_sck_o

-- The chip selects are active low.
unfoldable pub qspi_selected : Dut → ℕ → Bool
qspi_selected top cs = (top.qspi0_cs_o / 2 ^ cs % 2) == 0

unfoldable pub qspi_mosi : Dut → Bool
qspi_mosi top = nonzero (top.qspi0_sd_o % 2)

-- Bit 1 of the data inputs is replaced: it is cleared, then set to the value.
unfoldable pub qspi_miso : Dut → Bool → Dut
qspi_miso top value =
    let sd = top.qspi0_sd_i in
    record top { qspi0_sd_i = (sd - sd / 2 % 2 * 2 + (if value then 2 else 0)) % 256 }
