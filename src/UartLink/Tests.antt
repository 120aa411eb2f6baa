-- ===== src/UartLink/Tests.antt =====
-- A short message at a short bit period.
use friscv_soc.Common.{ℕ, ◌*◌, refl, List, [], ◌∷◌, arith}
use friscv_soc.UartLink.{new_driver, set_bit_cycles, send, new_monitor, set_monitor_divisor}
use friscv_soc.UartLink.Hold.{Line, loop}
use friscv_soc.UartLink.Loopback.{AtRest, Delivered, frame_cycles, loopback}

abbrev message : List ℕ
message = 0x4f ∷ 0x4b ∷ 0x0a ∷ []

abbrev fresh_line : Line
fresh_line = (send (set_bit_cycles new_driver 16) message, set_monitor_divisor new_monitor 1)

fresh_line-AtRest : AtRest 16 fresh_line
unfolding new_driver set_bit_cycles send new_monitor set_monitor_divisor
fresh_line-AtRest = record {
  driver_bits = refl;
  monitor_bits = refl;
  driver_idle = refl;
  monitor_idle = refl;
  driver_high = refl;
  monitor_high = refl;
}

loopback_example : Delivered 16 message fresh_line (loop (3 * frame_cycles 16) fresh_line)
unfolding new_driver set_bit_cycles send
loopback_example =
    loopback message 16 fresh_line (omega arith) (omega arith)
      (omega arith, (omega arith, (omega arith, tt))) fresh_line-AtRest refl
