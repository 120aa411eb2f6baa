-- ===== src/SocTestbench/Tests.antt =====
-- A module whose master asks for nothing, for three cycles.
use friscv_soc.Common.{◌+◌, ◌≡◌, false, arith}
use friscv_soc.Common.Words.{u64}
use friscv_soc.Dut.{Dut}
use friscv_soc.AxiMem.{Sample}
use friscv_soc.AxiMem.Channels.{IsHandshake}
use friscv_soc.SocTestbench.{Module, SocTestbench, run_cycles, new_testbench}
use friscv_soc.SocTestbench.Handshake.{
  ShortBursts, run_cycles-IsHandshake, new_testbench-IsHandshake,
}

abbrev silent : Sample
silent = record {
  aw_valid = false;
  aw_addr = 0;
  aw_len = 0;
  aw_size = 0;
  aw_id = false;
  w_valid = false;
  w_data = 0;
  w_strb = 0;
  w_last = false;
  b_ready = false;
  ar_valid = false;
  ar_addr = 0;
  ar_len = 0;
  ar_size = 0;
  ar_id = false;
  r_ready = false;
}

abbrev pins_module : Module Dut
pins_module = record {
  step = λ t. t;
  ports = λ t. t;
  master = λ t. silent;
  uart0_tx_o = λ t. 1;
  set_slave = λ d t. t;
  set_ports = λ d t. d;
  set_clk_i = λ level t. record t { clk_i = level };
  set_rst_ni = λ level t. t;
  set_uart0_rx_i = λ level t. t;
  set_jtag = λ tck tms tdi trst t. t;
  set_boot_sel_i = λ value t. t;
  set_gpio_a_i = λ value t. t;
}

pins_module-ShortBursts : ShortBursts pins_module
pins_module-ShortBursts t = omega arith

abbrev pins : Dut
pins = record {
  clk_i = 0;
  qspi0_sck_o = 0;
  qspi0_cs_o = 3;
  qspi0_sd_o = 0;
  qspi0_sd_i = 0;
  jtag_tdo_o = 0;
  jtag_tdo_oe_o = 0;
}

abbrev testbench : SocTestbench Dut
testbench = (new_testbench pins_module (λ page offset. 0) pins).1

run_cycles-IsHandshake_example :
    let t = (run_cycles pins_module 3 testbench).1 in
    IsHandshake t.ext_mem × (t.cycles ≡ u64 (testbench.cycles + 3))
run_cycles-IsHandshake_example =
    run_cycles-IsHandshake pins_module pins_module-ShortBursts 3 testbench
      (new_testbench-IsHandshake pins_module pins_module-ShortBursts (λ page offset. 0) pins)
