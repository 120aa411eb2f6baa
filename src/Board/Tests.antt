-- ===== src/Board/Tests.antt =====
-- A core that does nothing for a few cycles, and one store to the GPIO.
use friscv_soc.Common.{leb, ap, ℕ, ◌+◌, ◌≡◌, refl, true, false, arith}
use friscv_soc.Memory.{new_mem}
use friscv_soc.Bus.{Access, idle_out, SinkDevice, router_cycle}
use friscv_soc.Bus.Dispatch.{is_waiting}
use friscv_soc.MemModel.{MemModel, fixed, new_mem_model}
use friscv_soc.Board.{
  simulate, reset_cycles, cycle, release, run, stops, exit_code, Core, Bench, devices, new_devices,
  new_bus, last_write_of, pass_value, gpio_index,
}
use friscv_soc.Board.Gpio.{gpio_written}
use friscv_soc.Board.Stored.{any_stores, accesses_of, simulate-any_stores}

abbrev store_pass : Access
store_pass = record {
  size = 2;
  offset = 0x40000000;
  wdata = pass_value;
  w_en = true;
  r_en = false;
  burst_en = false;
}

-- The core counts its own clock edges, and stores the pass value in each cycle.
abbrev counting : Core ℕ
counting = record {
  posedge = λ c. c + 1;
  negedge = λ c. c;
  access = λ c. store_pass;
  drive_bus = λ out c. c;
  drive_clint = λ mtime msip mtip c. c;
  release_reset = λ c. c;
  halt_o = λ c. false;
  got_finish = λ c. false;
}

abbrev dram : MemModel
dram = new_mem_model (λ lo hi n. lo) (new_mem (λ page offset. 0) 0x80000000 0x1000000) (fixed 0)

abbrev bench : Bench ℕ
bench = record { top = 0; bus = new_bus; store = new_devices dram; cycle_count = 0 }

abbrev quiet_sink : SinkDevice
quiet_sink = record { out = idle_out; last_write = 0 }

gpio_written_example :
    last_write_of ((router_cycle devices store_pass new_bus (new_devices dram)).1 gpio_index)
    ≡ pass_value
unfolding new_bus new_devices is_waiting
gpio_written_example =
    gpio_written store_pass new_bus (new_devices dram) quiet_sink refl refl refl (omega arith)

-- The same core in a simulation that finishes after its first clock edge.
abbrev brief : Core ℕ
brief = record counting { got_finish = leb 1 }

brief_passes : (simulate brief true 5 0 dram).0 ≡ 0
unfolding simulate reset_cycles cycle release run stops exit_code
brief_passes = ap (exit_code true) gpio_written_example

simulate-any_stores_example : any_stores (accesses_of brief 5 0 dram) pass_value ≡ true
simulate-any_stores_example = simulate-any_stores brief 5 0 dram (λ c. omega arith) brief_passes
