-- ===== src/Board.antt =====
-- target/sim/cpp/tb_core_main.cpp: the simulation that the main program of the core testbench runs;
-- `CommandLine` has what comes before it. The Verilated core is a parameter: `Core` reads and drives
-- its pins.
use friscv_soc.Common.{
  ℕ, zero, suc, ◌+◌, Bool, true, false, not, ◌&&◌, ◌||◌, Option, none, some, List, [], ◌∷◌, leb,
  ltb, ◌==◌, if◌then◌else◌,
}
use friscv_soc.Common.Words.{u64}
use friscv_soc.Bus.{
  BusOut, idle_out, Access, BusDevice, SinkDevice, sink_cycle, BusRouter, map_device, router_cycle,
}
use friscv_soc.MemModel.{MemModel, mem_device}
use friscv_soc.Uart16550.{Uart16550Model, new_uart, uart_device}
use friscv_soc.Clint.{ClintModel, reset_clint, get_mtip, clint_device}
pub mod Run
pub mod Gpio
pub mod CommandLine
pub mod Verdict
pub mod Written
pub mod Stored
mod Tests

-- A device behind the router, by its class.
pub data Device : Type 0 where
  mem : MemModel → Device
  uart : Uart16550Model → Device
  sink : SinkDevice → Device
  clint : ClintModel → Device

-- The virtual methods, by the class of the object.
unfoldable pub device_cycle : Device → Access → Device
unfolding mem_device uart_device clint_device
device_cycle (mem s) a = mem (mem_device.cycle s a)
device_cycle (uart s) a = uart (uart_device.cycle s a)
device_cycle (sink s) a = sink (sink_cycle s a)
device_cycle (clint s) a = clint (clint_device.cycle s a)

unfoldable pub device_out : Device → BusOut
device_out (mem s) = s.out
device_out (uart s) = s.out
device_out (sink s) = s.out
device_out (clint s) = s.out

abbrev pub devices : BusDevice Device
devices = record { cycle = device_cycle; out = device_out }

-- The pins of `Vfriscv_cpu_verilator` that the program uses.
pub record Core (C : Type 0) : Type 0 where
  pub posedge : C → C
  pub negedge : C → C
  pub access : C → Access
  pub drive_bus : BusOut → C → C
  pub drive_clint : ℕ → Bool → Bool → C → C
  pub release_reset : C → C
  pub halt_o : C → Bool
  pub got_finish : C → Bool

abbrev pub pass_value : ℕ
pass_value = 0xaabbccdd

abbrev pub gpio_index : ℕ
gpio_index = 2

abbrev pub clint_index : ℕ
clint_index = 4

-- The objects of `main`, in the order in which they are mapped: dram, uart, gpio, halt_sink, clint.
unfoldable pub new_devices : MemModel → ℕ → Device
new_devices dram i =
    if i == 0
    then mem dram
    else if i == 1
    then uart new_uart
    else if i == clint_index
    then clint reset_clint
    else sink (record { out = idle_out; last_write = 0 })

unfoldable pub new_bus : BusRouter
unfolding map_device
new_bus =
    let empty : BusRouter = record {
      address_map = [];
      owner = none;
      owner_base = 0;
      out = idle_out;
    } in
    let r = map_device empty 0x80000000 0x01000000 0 in
    let r = map_device r 0x10000000 0x20 1 in
    let r = map_device r 0x40000000 4 2 in
    let r = map_device r 0x50000000 4 3 in map_device r 0x02000000 0x10000 4

-- `get_last_write`, of the object that `gpio` is.
unfoldable pub last_write_of : Device → ℕ
last_write_of (sink s) = s.last_write
last_write_of _ = 0

unfoldable pub exit_code : Bool → ℕ → ℕ
exit_code check_pass last_write =
    if check_pass then (if last_write == pass_value then 0 else 1) else 0

-- The state of the program.
pub record Bench (C : Type 0) : Type 0 where
  pub top : C
  pub bus : BusRouter
  pub store : ℕ → Device
  pub cycle_count : ℕ

module _ {C : Type 0} (core : Core C) where
  -- `drive_clint`, of the object that `clint` is.
  unfoldable pub drive_clint : Device → C → C
  drive_clint (clint c) top = core.drive_clint c.mtime c.msip (get_mtip c) top
  drive_clint _ top = top

  unfoldable pub cycle : Bench C → Bench C
  cycle b =
      let top = core.posedge b.top in
      let (bus, store) = router_cycle devices (core.access top) b.bus b.store in
      record {
        top = core.negedge (core.drive_bus bus.out top);
        bus = bus;
        store = store;
        cycle_count = u64 (b.cycle_count + 1);
      }

  -- The loop of the reset, with `n` cycles left.
  unfoldable pub reset_cycles : ℕ → Bench C → Bench C
  reset_cycles zero b = b
  reset_cycles (suc n) b = elim (core.got_finish b.top) [
    | true ↦ b
    | false ↦ reset_cycles n (cycle b)
  ]

  unfoldable pub release : Bench C → Bench C
  release b = record b {
    top = core.release_reset b.top;
    store = λ i. if i == clint_index then clint reset_clint else b.store i;
  }

  -- The condition on which the main loop ends.
  unfoldable pub stops : ℕ → Bench C → Bool
  stops max_cycles b =
      not (not (core.halt_o b.top) && (ltb b.cycle_count max_cycles && not (core.got_finish b.top)))

  -- The main loop, for at most `n` rounds.
  unfoldable pub run : ℕ → ℕ → Bench C → Bench C
  run zero max_cycles b = b
  run (suc n) max_cycles b = elim (stops max_cycles b) [
    | true ↦ b
    | false ↦
        let c = cycle b in
        run n max_cycles (record c { top = drive_clint (c.store clint_index) c.top })
  ]

  -- `main` from the reset loop on: `top` is the core as the first evaluation leaves it, in reset and
  -- with the pins of the timer driven.
  unfoldable pub simulate : Bool → ℕ → C → MemModel → ℕ × Bench C
  simulate check_pass max_cycles top dram =
      let start : Bench C = record {
        top = top;
        bus = new_bus;
        store = new_devices dram;
        cycle_count = 0;
      } in
      let b = run max_cycles max_cycles (release (reset_cycles 20 start)) in
      (exit_code check_pass (last_write_of (b.store gpio_index)), b)
