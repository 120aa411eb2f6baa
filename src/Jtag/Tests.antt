-- ===== src/Jtag/Tests.antt =====
-- A test access port on a bench, and a system bus behind a debug module.
use friscv_soc.Common.{
  ℕ, ◌+◌, ◌-◌, ◌≡◌, refl, Bool, true, false, List, [], ◌∷◌, ◌==◌, if◌then◌else◌, arith, ltb, inr,
}
use friscv_soc.Common.Results.{ok}
use friscv_soc.Jtag.{
  Bench, sbcs, pulse, shift_dr, encode_dmi, dmi_access, dmi_transfer, move_tap, idle, shift_from,
  shift_bits, shift_ir, dmi_status, reset_dmi,
}
use friscv_soc.Jtag.Debug.{Dmi}
use friscv_soc.Jtag.SystemBus.{Bus, reg_write, status_of}
use friscv_soc.Jtag.Tap.{Tap, run_test_idle, clock, output, bits_of, number_of, IsTap}
use friscv_soc.Jtag.Shift.{shift_dr_lem}
use friscv_soc.Jtag.Retry.{BusyFor, verdict, status_after, after_busy, dmi_access-settled}

abbrev bus_dmi : Dmi Bus
bus_dmi = record {
  read = λ r b.
      if r == sbcs
      then (ok (status_of 0x404 b), record b { busy = b.busy - 1 })
      else (ok b.held, b);
  write = λ r v b. (ok tt, reg_write 3 r v b);
  run_cycles = λ n b. b;
}

abbrev free_bus : Bus
free_bus = record {
  access = 0;
  read_on_address = false;
  address = 0;
  held = 0;
  busy = 0;
  mem = λ a. 0;
}

abbrev six_bytes : List ℕ
six_bytes = 1 ∷ 2 ∷ 3 ∷ 4 ∷ 5 ∷ 6 ∷ []

-- The pins and the port behind them.
record Pins : Type 0 where
  tap : Tap
  tms : Bool
  tdi : Bool
  tck : Bool

-- The data register takes in this byte.
abbrev taken : List Bool
taken = bits_of 0xa5 0 8

abbrev pins_bench : Bench Pins
pins_bench = record {
  set_data = λ m d s. record s { tms = m; tdi = d };
  set_tck = λ c s.
      if c then record s { tck = c; tap = clock taken s.tms s.tdi s.tap } else record s { tck = c };
  tdo = λ s. output s.tap.state s.tap.register;
  run_cycles = λ n s. s;
}

pins_bench-IsTap : IsTap pins_bench (λ s. s.tap) (λ s. taken)
unfolding pulse
pins_bench-IsTap = record { tdo_of = λ tms tdi s. refl; tap_of = λ tms tdi s. refl }

abbrev idle_tap : Tap
idle_tap = record { state = run_test_idle; register = []; instruction = true ∷ []; latched = [] }

abbrev idle_pins : Pins
idle_pins = record { tap = idle_tap; tms = false; tdi = false; tck = false }

shift_dr_lem_example :
    ((shift_dr pins_bench 0x3c 8 idle_pins).0 ≡ 0xa5)
    × ((shift_dr pins_bench 0x3c 8 idle_pins).1.tap ≡ record idle_tap {
      register = bits_of 0x3c 0 8;
      latched = (true ∷ [], bits_of 0x3c 0 8) ∷ [];
    })
unfolding bits_of number_of
shift_dr_lem_example =
    shift_dr_lem pins_bench (λ s. s.tap) (λ s. taken) pins_bench-IsTap 0x3c 7 idle_pins refl refl

-- A bench that counts its cycles; its output is high, which is the busy status, until the first
-- transfer is over, and low after that.
abbrev slow_bench : Bench ℕ
slow_bench = record {
  set_data = λ tms tdi s. s;
  set_tck = λ c s. s;
  tdo = λ s. ltb s 444;
  run_cycles = λ n s. s + n;
}

abbrev slow_request : ℕ
slow_request = encode_dmi 0x11 0 1

first_status : dmi_status (dmi_transfer slow_bench slow_request 0).0 ≡ 3
unfolding dmi_transfer shift_dr shift_ir shift_bits shift_from pulse move_tap idle dmi_status
first_status = refl

next_status : status_after slow_bench slow_request 1 0 ≡ 0
unfolding dmi_transfer shift_dr shift_ir shift_bits shift_from pulse move_tap idle dmi_status
    after_busy reset_dmi
next_status = refl

-- One round finds the interface busy, and the next one decides.
dmi_access-settled_example :
    dmi_access slow_bench 0x11 0 1 0
    ≡ verdict slow_bench slow_request (
        dmi_transfer slow_bench slow_request
          (reset_dmi slow_bench (dmi_transfer slow_bench slow_request 0).1))
unfolding after_busy BusyFor
dmi_access-settled_example =
    dmi_access-settled slow_bench 0x11 0 1 1 0 (omega arith) (first_status, tt)
      (inr (omega (arith, next_status)))
