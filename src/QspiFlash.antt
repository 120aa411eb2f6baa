-- ===== src/QspiFlash.antt =====
-- target/sim/cpp/qspi_flash.{hpp,cpp}: a SPI NOR flash in mode 0, single-bit reads only. `none` is
-- the exception of an unsupported command, or of a preload out of range.
use friscv_soc.Common.{
  ℕ, ◌+◌, ◌*◌, ◌%◌, Bool, true, false, not, ◌&&◌, List, [], ◌∷◌, Option, none, some, ◌==◌,
  if◌then◌else◌, of_bool,
}
use friscv_soc.Common.Words.{u8, u32, test_bit}
use friscv_soc.Memory.{PagedMem, new_mem, in_range, read_byte, write_byte}
use friscv_soc.Dut.{Dut, qspi_sck, qspi_selected, qspi_mosi}
pub mod Exchange
pub mod Stream
pub mod Read
pub mod Preload
mod Tests

abbrev pub cs_index : ℕ
cs_index = 0

abbrev pub memory_size : ℕ
memory_size = 0x1000000

abbrev pub cmd_read : ℕ
cmd_read = 0x03

abbrev pub cmd_jedec_id : ℕ
cmd_jedec_id = 0x9f

-- The array JEDEC_ID, at the indices 0, 1 and 2.
pub jedec_id : ℕ → ℕ
jedec_id i = if i == 0 then 0xef else if i == 1 then 0x40 else 0x18

-- `enum class Phase`
pub data Phase : Type 0 where
  command address reading id : Phase

-- `class QspiFlash`
pub record QspiFlash : Type 0 where
  pub memory : PagedMem
  pub phase : Phase
  pub shift_in : ℕ
  pub shift_out : ℕ
  pub bit : ℕ
  pub address_bytes : ℕ
  pub addr : ℕ
  pub clock : Bool
  pub selected : Bool
  pub miso : Bool

unfoldable pub new_flash : (ℕ → ℕ → ℕ) → QspiFlash
new_flash fill = record {
  memory = new_mem fill 0 memory_size;
  phase = command;
  shift_in = 0;
  shift_out = 0;
  bit = 0;
  address_bytes = 0;
  addr = 0;
  clock = false;
  selected = false;
  miso = false;
}

-- The loop of `preload`.
unfoldable pub preload_from : PagedMem → ℕ → List ℕ → Option PagedMem
preload_from m a [] = some m
preload_from m a (b ∷ bs) =
    if in_range m a then preload_from (write_byte m a b) (u32 (a + 1)) bs else none

unfoldable pub preload : QspiFlash → ℕ → List ℕ → Option QspiFlash
preload f a bytes = elim (preload_from f.memory a bytes) [
  | none ↦ none
  | some m ↦ some (record f { memory = m })
]

pub begin_transaction : QspiFlash → QspiFlash
begin_transaction f = record f {
  phase = command;
  shift_in = 0;
  bit = 0;
  address_bytes = 0;
  addr = 0;
}

-- The byte at an address is put in the output shifter.
pub load_shift_out : QspiFlash → ℕ → QspiFlash
load_shift_out f a = let (b, m) = read_byte f.memory a in record f { shift_out = b; memory = m }

-- The `switch` of `finish_byte`.
finish_phase : Phase → QspiFlash → Option QspiFlash
unfolding load_shift_out jedec_id
finish_phase command f =
    if f.shift_in == cmd_read
    then some (record f { phase = address })
    else if f.shift_in == cmd_jedec_id
    then some (record f { phase = id; addr = 0; shift_out = jedec_id 0 })
    else none
finish_phase address f =
    let a = u32 (f.addr * 256) + f.shift_in in
    let t = record f { addr = a; address_bytes = u32 (f.address_bytes + 1) } in
    if t.address_bytes == 3 then some (load_shift_out (record t { phase = reading }) a) else some t
finish_phase reading f =
    let a = u32 (f.addr + 1) in some (load_shift_out (record f { addr = a }) (a % memory_size))
finish_phase id f =
    let a = u32 (f.addr + 1) % 3 in some (record f { addr = a; shift_out = jedec_id a })

pub finish_byte : QspiFlash → Option QspiFlash
unfolding finish_phase
finish_byte f = finish_phase f.phase f

pub sample_bit : QspiFlash → Bool → Option QspiFlash
sample_bit f mosi =
    let t = record f { shift_in = u8 (f.shift_in * 2 + of_bool mosi); bit = u32 (f.bit + 1) } in
    if t.bit == 8 then finish_byte (record t { bit = 0 }) else some t

pub drive_bit : QspiFlash → QspiFlash
drive_bit f = record f { miso = test_bit f.shift_out 7; shift_out = u8 (f.shift_out * 2) }

-- `phase_ == Phase::Read || phase_ == Phase::Id`
pub drives : Phase → Bool
drives command = false
drives address = false
drives reading = true
drives id = true

unfoldable pub deselect : QspiFlash → Bool → QspiFlash
deselect f clock = record f {
  miso = if f.selected then false else f.miso;
  selected = false;
  clock = clock;
}

pub select : QspiFlash → QspiFlash
select f = if f.selected then f else record (begin_transaction f) { selected = true }

pub clock_edge : QspiFlash → Bool → Bool → Option QspiFlash
unfolding drives drive_bit
clock_edge f clock mosi =
    if clock && not f.clock
    then sample_bit (record f { clock = true }) mosi
    else if not clock && f.clock
    then (let t = record f { clock = false } in some (if drives t.phase then drive_bit t else t))
    else some f

-- `update`
unfoldable pub update : QspiFlash → Dut → Option QspiFlash
update f top =
    if not (qspi_selected top cs_index)
    then some (deselect f (qspi_sck top))
    else clock_edge (select f) (qspi_sck top) (qspi_mosi top)
