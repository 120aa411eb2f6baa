-- ===== src/SdCard/Pins.antt =====
-- The clocked interface of sd_card.cpp: bits in, bits out, the delay line and `update`.
use friscv_soc.Common.{
  ℕ, zero, suc, ◌+◌, ◌*◌, ◌/◌, ◌%◌, ◌^◌, Bool, true, false, not, ◌&&◌, List, [], ◌∷◌, ◌++◌, ltb,
  leb, ◌==◌, if◌then◌else◌, of_bool,
}
use friscv_soc.Common.Words.{u8, u32, test_bit}
use friscv_soc.Common.Arrays.{length, replicate}
use friscv_soc.Dut.{Dut, nonzero, qspi_sck, qspi_selected, qspi_mosi}
use friscv_soc.SdCard.State.{SdCard, cs_index, max_delay}
use friscv_soc.SdCard.Command.{process_command}
pub mod Exchange
pub mod ReadBlock

abbrev pub is_empty : List ℕ → Bool
is_empty [] = true
is_empty (_ ∷ _) = false

-- `next_out_byte`, on the queue: the byte and what is left.
unfoldable pub next_out_byte : List ℕ → ℕ × List ℕ
next_out_byte [] = (0xff, [])
next_out_byte (b ∷ q) = (b, q)

-- The first half of `present_bit`: a new byte is fetched at the first bit.
pub load_byte : SdCard → SdCard
load_byte c =
    if c.out_bit == 0
    then (let (b, q) = next_out_byte c.out_queue in record c { out_byte = b; out_queue = q })
    else c

pub present_bit : SdCard → SdCard
unfolding load_byte
present_bit c =
    let t = load_byte c in
    record t {
      miso_raw = test_bit t.out_byte 7;
      out_byte = u8 (t.out_byte * 2);
      out_bit = (t.out_bit + 1) % 8;
    }

pub begin_transaction : SdCard → SdCard
unfolding present_bit
begin_transaction c =
    present_bit (record c { shift_in = 0; bit_in = 0; in_cmd = false; cmd = []; out_bit = 0 })

-- Command frames open with 01xxxxxx: `(byte & 0xc0) == 0x40`.
abbrev pub opens_frame : ℕ → Bool
opens_frame byte = byte / 64 % 4 == 1

pub finish_byte : SdCard → SdCard
finish_byte c =
    if c.in_cmd
    then (let t = record c { cmd = c.cmd ++ (c.shift_in ∷ []) } in
        if length t.cmd == 6 then process_command (record t { in_cmd = false }) else t)
    else if is_empty c.out_queue && opens_frame c.shift_in
    then record c { in_cmd = true; cmd = c.shift_in ∷ [] }
    else c

pub sample_bit : SdCard → Bool → SdCard
sample_bit c mosi =
    let t = record c {
      shift_in = u8 (c.shift_in * 2 + of_bool mosi);
      bit_in = u32 (c.bit_in + 1);
    } in
    if t.bit_in == 8 then finish_byte (record t { bit_in = 0 }) else t

-- `pop_front`
abbrev drop_first : List Bool → List Bool
drop_first [] = []
drop_first (_ ∷ xs) = xs

abbrev front : List Bool → Bool
front [] = true
front (x ∷ _) = x

unfoldable pub set_miso_delay : SdCard → ℕ → SdCard
set_miso_delay c cycles =
    let n = if ltb max_delay cycles then max_delay else cycles in
    record c { delay = n; pipe = replicate n true }

unfoldable pub miso : SdCard → Bool
miso c = if c.delay == 0 then c.miso_raw else front c.pipe

pub advance_delay : SdCard → SdCard
advance_delay c =
    if c.delay == 0 then c else record c { pipe = drop_first (c.pipe ++ (c.miso_raw ∷ [])) }

-- The part of `update` after the core clock, at the level of the pins: not selected, then selected.
pub deselected : SdCard → Bool → SdCard
deselected c clock =
    let t = record c { selected = false; clock = clock } in
    if not c.clock && clock then record t { idle_clocks = u32 (c.idle_clocks + 1) } else t

pub clock_edge : SdCard → Bool → Bool → SdCard
unfolding sample_bit present_bit
clock_edge c clock mosi =
    if clock && not c.clock
    then sample_bit (record c { clock = true }) mosi
    else if not clock && c.clock
    then present_bit (record c { clock = false })
    else c

pub select : SdCard → SdCard
unfolding begin_transaction
select c = if c.selected then c else record (begin_transaction c) { selected = true }

-- `update`
unfoldable pub update : SdCard → Dut → SdCard
unfolding advance_delay deselected clock_edge select
update c top =
    let core = nonzero top.clk_i in
    let d = if core && not c.core_clock then advance_delay c else c in
    let t = record d { core_clock = core } in
    let clock = qspi_sck top in
    if not (qspi_selected top cs_index)
    then deselected t clock
    else clock_edge (select t) clock (qspi_mosi top)
