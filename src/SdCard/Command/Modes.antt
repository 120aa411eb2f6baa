-- ===== src/SdCard/Command/Modes.antt =====
-- The modes of the card: how it is initialised and how it becomes ready.
use friscv_soc.Common.{
  ℕ, ◌≡◌, refl, Bool, true, false, List, ◌==◌, ◌&&◌, ◌||◌, leb, if◌then◌else◌, arith,
}
use friscv_soc.SdCard.State.{SdCard, required_init_clocks}
use friscv_soc.SdCard.Command.{
  respond, command_of, argument_of, crc_of, go_idle_state, send_if_cond, send_op_cond,
  read_single_block, execute, process_command, cmd_go_idle_state, cmd_app_cmd, acmd_send_op_cond,
  cmd_send_if_cond, cmd_read_ocr, cmd_set_blocklen, cmd_read_single_block, cmd0_crc,
}

-- A card becomes ready only by the application command 41, announced by command 55, when it has
-- seen that command before; no command makes a ready card unready.
pub process_command-ready :
    (c : SdCard)
    → (process_command c).ready
      ≡ (c.ready || ((command_of c.cmd == acmd_send_op_cond) && c.app_cmd && leb 1 c.acmd41_count))
unfolding process_command execute go_idle_state send_if_cond send_op_cond read_single_block respond
process_command-ready c = ground arith

-- A card is initialised exactly by a command 0 with the right checksum that comes after at least
-- 74 clocks with the chip select high, and stays so.
pub process_command-initialised :
    (c : SdCard)
    → (process_command c).initialised ≡ (
        c.initialised
        || ((command_of c.cmd == cmd_go_idle_state)
            && (leb required_init_clocks c.idle_clocks && (crc_of c.cmd == cmd0_crc))))
unfolding process_command execute go_idle_state send_if_cond send_op_cond read_single_block respond
process_command-initialised c = ground arith

-- Command 55 announces an application command for the next command only.
pub process_command-app_cmd :
    (c : SdCard) → (process_command c).app_cmd ≡ (command_of c.cmd == cmd_app_cmd)
unfolding process_command execute go_idle_state send_if_cond send_op_cond read_single_block respond
process_command-app_cmd c = ground arith

-- The fields of the serial interface, which no command changes.
abbrev pub serial : SdCard → Bool × ℕ × ℕ
serial c = (c.clock, c.bit_in, c.out_bit)

serial-if :
    (b : Bool) (c d e : SdCard)
    → serial d ≡ serial c
    → serial e ≡ serial c
    → serial (if b then d else e) ≡ serial c
serial-if true c d e p q = p
serial-if false c d e p q = q

serial-respond : (c : SdCard) (bytes : List ℕ) → serial (respond c bytes) ≡ serial c
unfolding respond
serial-respond c bytes = refl

serial-go_idle_state : (c : SdCard) (crc : ℕ) → serial (go_idle_state c crc) ≡ serial c
unfolding go_idle_state respond
serial-go_idle_state c crc = ground arith

serial-send_if_cond :
    (c : SdCard) (argument crc : ℕ) → serial (send_if_cond c argument crc) ≡ serial c
unfolding send_if_cond respond
serial-send_if_cond c argument crc = ground arith

serial-send_op_cond : (c : SdCard) (app : Bool) → serial (send_op_cond c app) ≡ serial c
unfolding send_op_cond respond
serial-send_op_cond c app = ground arith

serial-read_single_block :
    (c : SdCard) (argument : ℕ) → serial (read_single_block c argument) ≡ serial c
unfolding read_single_block respond
serial-read_single_block c argument = ground arith

pub serial-process_command : (c : SdCard) → serial (process_command c) ≡ serial c
unfolding process_command execute respond
serial-process_command c =
    let d = record c { app_cmd = false } in
    let command = command_of c.cmd in
    let argument = argument_of c.cmd in
    let crc = crc_of c.cmd in
    serial-if (command == cmd_go_idle_state) c _ _ (serial-go_idle_state d crc) (
      serial-if (command == cmd_send_if_cond) c _ _ (serial-send_if_cond d argument crc) (
        serial-if (command == cmd_app_cmd) c _ _ refl (
          serial-if (command == acmd_send_op_cond) c _ _ (serial-send_op_cond d c.app_cmd) (
            serial-if (command == cmd_read_ocr) c _ _ refl (
              serial-if (command == cmd_set_blocklen) c _ _ refl (
                serial-if (command == cmd_read_single_block) c _ _
                  (serial-read_single_block d argument) refl))))))
