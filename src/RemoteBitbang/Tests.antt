-- ===== src/RemoteBitbang/Tests.antt =====
-- A target that keeps its pins and counts its cycles, and a client that reads, pulses and leaves.
use friscv_soc.Common.{ℕ, ◌+◌, ◌%◌, ◌≡◌, refl, Bool, true, false, List, [], ◌∷◌, none, ◌==◌}
use friscv_soc.Jtag.{pulse}
use friscv_soc.RemoteBitbang.{
  Target, exhausted, Event, idle, interrupted, received, returned, tdo_char, run_commands,
  serve_client,
}
use friscv_soc.RemoteBitbang.Session.{
  Session, buffer, command, high, pins, finished, nothing, again, lamp_on, quit,
  serve_client-Session,
}
use friscv_soc.RemoteBitbang.Pulse.{PinLaws, pulse_commands, run_commands-pulse}

-- The data pins, the clock and the cycles.
abbrev Counted : Type 0
Counted = (Bool × Bool) × (Bool × ℕ)

abbrev counting : Target Counted
counting = record {
  bench = record {
    set_data = λ tms tdi s. ((tms, tdi), s.1);
    set_tck = λ tck s. (s.0, (tck, s.1.1));
    tdo = λ s. s.1.1 % 4 == 2;
    run_cycles = λ n s. (s.0, (s.1.0, s.1.1 + n));
  };
  set_resets = λ trst rst s. s;
}

abbrev start : Counted
start = ((false, false), (false, 6))

counting-PinLaws : PinLaws counting.bench
counting-PinLaws = record {
  output_kept = λ tms tdi s. refl;
  in_any_order = λ tms tdi tck s. refl;
  inputs_kept = λ tms tdi tck n s. refl;
}

run_commands-pulse_example :
    let p = pulse counting.bench true false start in
    run_commands counting (pulse_commands true false) [] start
    ≡ (exhausted, (tdo_char p.0 ∷ [], p.1))
run_commands-pulse_example = run_commands-pulse counting counting-PinLaws true false start

-- The client reads the output, moves the pins, waits, moves them again, reads and leaves.
abbrev events : List Event
events =
    received none (82 ∷ 54 ∷ []) ∷ idle ∷ interrupted ∷ received none (50 ∷ 66 ∷ 82 ∷ 81 ∷ []) ∷ []

abbrev moved : Counted
moved = ((true, false), (true, 8))

abbrev last_state : Counted
last_state = ((true, false), (false, 74))

session : Session counting none events (49 ∷ 49 ∷ []) start last_state returned
session = buffer (
    command (high start refl) (
      command (pins true true false start) (
        finished (
          nothing (
            again (
              buffer (
                command (pins false true false (counting.bench.run_cycles 64 moved)) (
                  command (lamp_on last_state)
                    (command (high last_state refl) (quit last_state))))))))))

serve_client-Session_example :
    serve_client counting events [] start ≡ (returned, (49 ∷ 49 ∷ [], last_state))
serve_client-Session_example = serve_client-Session counting session []
