-- ===== src/SdCard/State.antt =====
-- The members of `class SdCard` and its constants.
use friscv_soc.Common.{
  ℕ, ◌+◌, ◌*◌, Bool, true, false, List, [], ◌∷◌, Option, none, some, if◌then◌else◌, zero, suc,
}
use friscv_soc.Common.Words.{u8, u32}
use friscv_soc.Memory.{PagedMem, new_mem, in_range, write_byte}

abbrev pub cs_index : ℕ
cs_index = 1

abbrev pub block_bytes : ℕ
block_bytes = 512

abbrev pub memory_size : ℕ
memory_size = 0x800000

abbrev pub max_delay : ℕ
max_delay = 16

abbrev pub required_init_clocks : ℕ
required_init_clocks = 74

abbrev pub response_delay_bytes : ℕ
response_delay_bytes = 2

abbrev pub read_access_bytes : ℕ
read_access_bytes = 3

-- `class SdCard`; `cmd` holds the bytes of `cmd_` received so far, of which there are `cmd_len_`.
pub record SdCard : Type 0 where
  pub memory : PagedMem
  pub selected : Bool
  pub clock : Bool
  pub core_clock : Bool
  pub idle_clocks : ℕ
  pub shift_in : ℕ
  pub bit_in : ℕ
  pub cmd : List ℕ
  pub in_cmd : Bool
  pub out_byte : ℕ
  pub out_bit : ℕ
  pub out_queue : List ℕ
  pub initialised : Bool
  pub app_cmd : Bool
  pub ready : Bool
  pub acmd41_count : ℕ
  pub miso_raw : Bool
  pub delay : ℕ
  pub pipe : List Bool

unfoldable pub new_card : (ℕ → ℕ → ℕ) → SdCard
new_card fill = record {
  memory = new_mem fill 0 memory_size;
  selected = false;
  clock = false;
  core_clock = false;
  idle_clocks = 0;
  shift_in = 0;
  bit_in = 0;
  cmd = [];
  in_cmd = false;
  out_byte = 0xff;
  out_bit = 0;
  out_queue = [];
  initialised = false;
  app_cmd = false;
  ready = false;
  acmd41_count = 0;
  miso_raw = true;
  delay = 0;
  pipe = [];
}

unfoldable pub pattern_byte : ℕ → ℕ → ℕ
pattern_byte block offset = u8 (block * 31 + offset * 7 + 0x5a)

-- The inner loop of `fill_test_pattern`, from an offset on, with `n` rounds left.
unfoldable pub fill_block : ℕ → ℕ → ℕ → PagedMem → PagedMem
fill_block zero block offset m = m
fill_block (suc n) block offset m =
    fill_block n block (offset + 1)
      (write_byte m (u32 (block * block_bytes + offset)) (pattern_byte block offset))

-- The outer loop, from a block on, with `n` rounds left.
unfoldable pub fill_blocks : ℕ → ℕ → PagedMem → PagedMem
fill_blocks zero block m = m
fill_blocks (suc n) block m = fill_blocks n (block + 1) (fill_block block_bytes block 0 m)

unfoldable pub fill_test_pattern : ℕ → SdCard → SdCard
fill_test_pattern blocks c = record c { memory = fill_blocks blocks 0 c.memory }

-- The loop of `preload`: `none` is the exception "SD card preload is out of range".
unfoldable pub preload_from : PagedMem → ℕ → List ℕ → Option PagedMem
preload_from m address [] = some m
preload_from m address (b ∷ bs) =
    if in_range m address
    then preload_from (write_byte m address b) (u32 (address + 1)) bs
    else none

-- `Option.map` over the card's memory.
unfoldable pub preload : SdCard → ℕ → List ℕ → Option SdCard
preload c block bytes = elim (preload_from c.memory (u32 (block * block_bytes)) bytes) [
  | none ↦ none
  | some m ↦ some (record c { memory = m })
]
