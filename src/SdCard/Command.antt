-- ===== src/SdCard/Command.antt =====
-- `respond` and `process_command` of sd_card.cpp: what the card does with a command frame.
use friscv_soc.Common.{
  ℕ, zero, suc, ◌+◌, ◌*◌, ◌/◌, ◌%◌, ◌^◌, Bool, true, false, not, ◌&&◌, List, [], ◌∷◌, ◌++◌, ltb,
  ◌==◌, if◌then◌else◌,
}
use friscv_soc.Common.Words.{u8, u16, u32}
use friscv_soc.Common.Arrays.{get_or, replicate}
use friscv_soc.Memory.{PagedMem, read_byte}
use friscv_soc.SdCard.State.{
  SdCard, block_bytes, memory_size, required_init_clocks, response_delay_bytes, read_access_bytes,
}
use friscv_soc.SdCard.Crc.{crc16_ccitt}
pub mod ReadBlock
pub mod Modes

abbrev pub cmd_go_idle_state : ℕ
cmd_go_idle_state = 0

abbrev pub cmd_send_if_cond : ℕ
cmd_send_if_cond = 8

abbrev pub cmd_set_blocklen : ℕ
cmd_set_blocklen = 16

abbrev pub cmd_read_single_block : ℕ
cmd_read_single_block = 17

abbrev pub acmd_send_op_cond : ℕ
acmd_send_op_cond = 41

abbrev pub cmd_app_cmd : ℕ
cmd_app_cmd = 55

abbrev pub cmd_read_ocr : ℕ
cmd_read_ocr = 58

abbrev pub r1_ready : ℕ
r1_ready = 0x00

abbrev pub r1_idle : ℕ
r1_idle = 0x01

abbrev pub r1_illegal_command : ℕ
r1_illegal_command = 0x04

abbrev pub r1_crc_error : ℕ
r1_crc_error = 0x08

abbrev pub data_token : ℕ
data_token = 0xfe

abbrev pub cmd0_crc : ℕ
cmd0_crc = 0x95

abbrev pub cmd8_crc : ℕ
cmd8_crc = 0x87

pub respond : SdCard → List ℕ → SdCard
respond c bytes = record c {
  out_queue = c.out_queue ++ (replicate response_delay_bytes 0xff ++ bytes);
}

-- The fields of the frame in `cmd_`, whose six bytes have been received.
unfoldable pub command_of : List ℕ → ℕ
command_of frame = get_or frame 0 0 % 64

unfoldable pub argument_of : List ℕ → ℕ
argument_of frame =
    get_or frame 1 0 * 2 ^ 24
    + get_or frame 2 0 * 2 ^ 16
    + get_or frame 3 0 * 2 ^ 8
    + get_or frame 4 0

unfoldable pub crc_of : List ℕ → ℕ
crc_of frame = get_or frame 5 0

pub go_idle_state : SdCard → ℕ → SdCard
go_idle_state c crc =
    if ltb c.idle_clocks required_init_clocks
    then c
    else if not (crc == cmd0_crc)
    then respond c (r1_crc_error ∷ [])
    else respond (record c { initialised = true }) (r1_idle ∷ [])

pub send_if_cond : SdCard → ℕ → ℕ → SdCard
send_if_cond c argument crc =
    if not c.initialised
    then respond c ((r1_illegal_command + r1_idle) ∷ [])
    else if not (crc == cmd8_crc)
    then respond c (r1_crc_error ∷ [])
    else respond c (r1_idle ∷ 0x00 ∷ 0x00 ∷ 0x01 ∷ (argument % 256) ∷ [])

-- `acmd41_count_++ < 1` counts on both branches.
pub send_op_cond : SdCard → Bool → SdCard
send_op_cond c app =
    if not app
    then respond c (r1_illegal_command ∷ [])
    else if ltb c.acmd41_count 1
    then respond (record c { acmd41_count = u32 (c.acmd41_count + 1) }) (r1_idle ∷ [])
    else respond (record c { acmd41_count = u32 (c.acmd41_count + 1); ready = true })
        (r1_ready ∷ [])

-- The loop that reads a block: `n` bytes are left, from address `a` on.
pub read_bytes : ℕ → ℕ → PagedMem → List ℕ × PagedMem
read_bytes zero a m = ([], m)
read_bytes (suc n) a m =
    let (b, m') = read_byte m a in let (bs, m'') = read_bytes n (u32 (a + 1)) m' in (b ∷ bs, m'')

-- The reply that carries a block.
pub block_reply : List ℕ → List ℕ
block_reply block =
    let crc = crc16_ccitt block in
    r1_ready
    ∷ (replicate read_access_bytes 0xff
        ++ (data_token ∷ (block ++ ((crc / 256 % 256) ∷ (crc % 256) ∷ []))))

pub read_single_block : SdCard → ℕ → SdCard
read_single_block c argument =
    if not c.ready
    then respond c ((r1_illegal_command + r1_idle) ∷ [])
    else if ltb memory_size (argument * block_bytes + block_bytes)
    then respond c (r1_ready ∷ 0x08 ∷ [])
    else (let (block, m) = read_bytes block_bytes (u32 (argument * block_bytes)) c.memory in
        respond (record c { memory = m }) (block_reply block))

-- The `switch`.
pub execute : SdCard → Bool → ℕ → ℕ → ℕ → SdCard
execute c app command argument crc =
    if command == cmd_go_idle_state
    then go_idle_state c crc
    else if command == cmd_send_if_cond
    then send_if_cond c argument crc
    else if command == cmd_app_cmd
    then respond (record c { app_cmd = true })
        ((if c.initialised && c.ready then r1_ready else r1_idle) ∷ [])
    else if command == acmd_send_op_cond
    then send_op_cond c app
    else if command == cmd_read_ocr
    then respond c ((if c.ready then r1_ready else r1_idle) ∷ 0xc0 ∷ 0xff ∷ 0x80 ∷ 0x00 ∷ [])
    else if command == cmd_set_blocklen
    then respond c ((if c.ready then r1_ready else r1_idle) ∷ [])
    else if command == cmd_read_single_block
    then read_single_block c argument
    else respond c (r1_illegal_command ∷ [])

-- `process_command`
pub process_command : SdCard → SdCard
process_command c =
    execute (record c { app_cmd = false }) c.app_cmd (command_of c.cmd) (argument_of c.cmd)
      (crc_of c.cmd)
