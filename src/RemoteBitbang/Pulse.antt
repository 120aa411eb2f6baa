-- ===== src/RemoteBitbang/Pulse.antt =====
-- A clock pulse by three commands, against the pulse of the JTAG driver.
use friscv_soc.Common.{ℕ, ◌+◌, ◌*◌, ◌≡◌, sym, ap, ◌∙◌, Bool, true, false, List, [], ◌∷◌, of_bool}
use mathlib.Core.Path.{ap₂}
use friscv_soc.Jtag.{Bench, pulse}
use friscv_soc.RemoteBitbang.{Target, exhausted, tdo_char, execute, set_pins, run_commands}

-- The inputs of the Verilated module are only written by the testbench and may be written in any
-- order, and its output changes only when cycles run.
pub record PinLaws {S : Type 0} (bench : Bench S) : Type 0 where
  pub output_kept : (tms tdi : Bool) (s : S) → bench.tdo (bench.set_data tms tdi s) ≡ bench.tdo s
  pub in_any_order :
      (tms tdi tck : Bool) (s : S)
      → bench.set_data tms tdi (bench.set_tck tck s) ≡ bench.set_tck tck (bench.set_data tms tdi s)
  pub inputs_kept :
      (tms tdi tck : Bool) (n : ℕ) (s : S)
      → let t = bench.run_cycles n (bench.set_tck tck (bench.set_data tms tdi s)) in
        bench.set_data tms tdi t ≡ t

-- The commands for a pulse: the output is read, then the clock goes high and low.
abbrev pub pulse_commands : Bool → Bool → List ℕ
pulse_commands tms tdi = let low = 48 + 2 * of_bool tms + of_bool tdi in 82 ∷ (low + 4) ∷ low ∷ []

module _ {S : Type 0} (target : Target S) (laws : PinLaws target.bench) where
  driven_twice :
      (tms tdi : Bool) (s : S)
      → let high =
          target.bench.run_cycles 2 (target.bench.set_data tms tdi (target.bench.set_tck true s)) in
        target.bench.run_cycles 2 (target.bench.set_data tms tdi (target.bench.set_tck false high))
        ≡ (pulse target.bench tms tdi s).1
  unfolding pulse
  driven_twice tms tdi s =
      let b = target.bench in
      let high = b.run_cycles 2 (b.set_tck true (b.set_data tms tdi s)) in
      ap (λ t. b.run_cycles 2 (b.set_data tms tdi (b.set_tck false (b.run_cycles 2 t))))
        (laws.in_any_order tms tdi true s)
      ∙ ap (b.run_cycles 2) (laws.in_any_order tms tdi false high)
      ∙ ap (λ t. b.run_cycles 2 (b.set_tck false t)) (laws.inputs_kept tms tdi true 2 s)

  reply_char :
      (tms tdi : Bool) (s : S)
      → tdo_char (target.bench.tdo s) ≡ tdo_char (pulse target.bench tms tdi s).0
  unfolding pulse
  reply_char tms tdi s = ap tdo_char (sym (laws.output_kept tms tdi s))

  -- A debugger that sends the commands for a pulse drives the pins as the JTAG driver's pulse does,
  -- and the character that it gets back is the output that the driver reads, for pins that keep
  -- what is written and an output that changes only when cycles run.
  pub run_commands-pulse :
      (tms tdi : Bool) (s : S)
      → let p = pulse target.bench tms tdi s in
        run_commands target (pulse_commands tms tdi) [] s ≡ (exhausted, (tdo_char p.0 ∷ [], p.1))
  unfolding run_commands execute set_pins pulse
  run_commands-pulse true true s =
      ap₂ (λ c t. (exhausted, (c ∷ [], t))) (reply_char true true s) (driven_twice true true s)
  run_commands-pulse true false s =
      ap₂ (λ c t. (exhausted, (c ∷ [], t))) (reply_char true false s) (driven_twice true false s)
  run_commands-pulse false true s =
      ap₂ (λ c t. (exhausted, (c ∷ [], t))) (reply_char false true s) (driven_twice false true s)
  run_commands-pulse false false s =
      ap₂ (λ c t. (exhausted, (c ∷ [], t))) (reply_char false false s) (driven_twice false false s)
