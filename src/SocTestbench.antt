-- ===== src/SocTestbench.antt =====
-- target/sim/cpp/soc_testbench.{hpp,cpp} and the inputs of dut.hpp: the SoC testbench, which clocks
-- the Verilated SoC together with its memory, the two devices on the SPI lines and both ends of the
-- serial line. The Verilated module is a parameter.
use Prim.Native.String.{String}
use friscv_soc.Common.{
  ℕ, zero, suc, ◌+◌, ◌*◌, ◌%◌, Bool, true, false, Option, none, some, if◌then◌else◌,
}
use friscv_soc.Common.Words.{u8, u64}
use friscv_soc.Common.Results.{Result, ok, thrown, Act, pure, then_do, ◌>>=◌, ◌>>◌, modify}
use friscv_soc.Dut.{Dut, nonzero, qspi_miso}
use friscv_soc.AxiMem.{AxiMem, Sample, Driven, new_axi}
use friscv_soc.AxiMem
use friscv_soc.QspiFlash.{QspiFlash, new_flash}
use friscv_soc.QspiFlash
use friscv_soc.SdCard.State.{SdCard, new_card, fill_test_pattern}
use friscv_soc.SdCard.Pins
use friscv_soc.UartLink.{UartRxDriver, UartTxMonitor, new_driver, new_monitor, drive, sample}
pub mod Handshake
mod Tests

-- The Verilated module: its evaluation, the ports that it drives and those that it reads.
pub record Module (T : Type 0) : Type 0 where
  pub step : T → T
  pub ports : T → Dut
  pub master : T → Sample
  pub uart0_tx_o : T → ℕ
  pub set_slave : Driven → T → T
  pub set_ports : Dut → T → T
  pub set_clk_i : ℕ → T → T
  pub set_rst_ni : ℕ → T → T
  pub set_uart0_rx_i : Bool → T → T
  pub set_jtag : ℕ → ℕ → ℕ → ℕ → T → T
  pub set_boot_sel_i : ℕ → T → T
  pub set_gpio_a_i : ℕ → T → T

-- `class SocTestbench`
pub record SocTestbench (T : Type 0) : Type 0 where
  pub top : T
  pub ext_mem : AxiMem
  pub flash : QspiFlash
  pub sd : SdCard
  pub uart : UartTxMonitor
  pub uart_rx : UartRxDriver
  pub cycles : ℕ

abbrev pub half_reset : ℕ
half_reset = 20

abbrev pub sd_pattern_blocks : ℕ
sd_pattern_blocks = 4

-- The level of the line that two devices share; it idles high.
unfoldable pub shared_line : QspiFlash → SdCard → Bool
shared_line flash sd =
    if flash.selected then flash.miso else if sd.selected then Pins.miso sd else true

-- What `flash_.update()` leaves; `none` is its exception.
abbrev pub with_flash :
    {T : Type 0} → SocTestbench T → Option QspiFlash → Result (Unit {0}) × SocTestbench T
with_flash s none = (thrown "QSPI flash saw an unsupported command", s)
with_flash s (some flash) = (ok tt, record s { flash = flash })

module _ {T : Type 0} (m : Module T) where
  unfoldable pub set_boot_sel : ℕ → T → T
  set_boot_sel value top = m.set_boot_sel_i (u8 value) top

  unfoldable pub clear_inputs : T → T
  clear_inputs top =
      let t = m.set_gpio_a_i 0 (m.set_boot_sel_i 0 top) in
      m.set_ports (record (m.ports t) { qspi0_sd_i = 0 }) t

  unfoldable pub drive_miso : SocTestbench T → SocTestbench T
  drive_miso s = record s {
    top = m.set_ports (qspi_miso (m.ports s.top) (shared_line s.flash s.sd)) s.top;
  }

  -- `ext_mem_.update()`, which may drive the pins of the slave's side.
  unfoldable pub update_ext_mem : SocTestbench T → SocTestbench T
  update_ext_mem s =
      let (mem, out) = AxiMem.update s.ext_mem (m.ports s.top).clk_i (m.master s.top) in
      record s { ext_mem = mem; top = elim out [ none ↦ s.top | some d ↦ m.set_slave d s.top ] }

  unfoldable pub update_flash : Act (SocTestbench T) (Unit {0})
  update_flash s = with_flash s (QspiFlash.update s.flash (m.ports s.top))

  abbrev pub update_sd : SocTestbench T → SocTestbench T
  update_sd s = record s { sd = Pins.update s.sd (m.ports s.top) }

  abbrev pub step_top : SocTestbench T → SocTestbench T
  step_top s = record s { top = m.step s.top }

  unfoldable pub eval : Act (SocTestbench T) (Unit {0})
  eval = do
    modify step_top
    modify update_ext_mem
    update_flash
    modify update_sd
    modify drive_miso
    modify step_top

  abbrev pub set_clock : ℕ → SocTestbench T → SocTestbench T
  set_clock level s = record s { top = m.set_clk_i level s.top }

  abbrev pub set_reset : ℕ → SocTestbench T → SocTestbench T
  set_reset level s = record s { top = m.set_rst_ni level s.top }

  -- The two serial lines of one cycle.
  unfoldable pub serial_lines : SocTestbench T → SocTestbench T
  serial_lines s =
      let (driver, level) = drive s.uart_rx in
      record s {
        uart = sample s.uart (nonzero (m.uart0_tx_o s.top));
        uart_rx = driver;
        top = m.set_uart0_rx_i level s.top;
      }

  -- One round of the loop of `run_cycles`.
  unfoldable pub run_cycle : Act (SocTestbench T) (Unit {0})
  run_cycle = do modify serial_lines; modify (set_clock 1); eval; modify (set_clock 0); eval

  unfoldable pub run_loop : ℕ → Act (SocTestbench T) (Unit {0})
  run_loop zero = pure tt
  run_loop (suc n) = run_cycle >> run_loop n

  abbrev pub count_cycles : ℕ → SocTestbench T → SocTestbench T
  count_cycles count s = record s { cycles = u64 (s.cycles + count) }

  unfoldable pub run_cycles : ℕ → Act (SocTestbench T) (Unit {0})
  run_cycles count = modify (count_cycles count) >> run_loop count

  unfoldable pub reset : Act (SocTestbench T) (Unit {0})
  reset = do
    modify (set_reset 0)
    run_cycles half_reset
    modify (set_reset 1)
    run_cycles half_reset

  abbrev pub idle_inputs : T → T
  idle_inputs top =
      clear_inputs (m.set_jtag 0 1 0 1 (m.set_uart0_rx_i true (m.set_rst_ni 0 (m.set_clk_i 0 top))))

  -- The constructor, on a module `top` and with the random contents of the three memories. That of
  -- the external memory drives the pins of the slave's side first.
  unfoldable pub new_testbench : (ℕ → ℕ → ℕ) → T → Result (Unit {0}) × SocTestbench T
  new_testbench fill top = eval (record {
    top = idle_inputs (m.set_slave (AxiMem.drive (new_axi fill)) top);
    ext_mem = new_axi fill;
    flash = new_flash fill;
    sd = fill_test_pattern sd_pattern_blocks (new_card fill);
    uart = new_monitor;
    uart_rx = new_driver;
    cycles = 0;
  })
