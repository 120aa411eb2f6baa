-- ===== src/SocMain/Image.antt =====
-- target/sim/cpp/tb_soc_main.cpp: what the testbench asks of an image before it starts it, and the
-- stage that it sends over the serial line. The base of the on-chip memory is set by the build.
use friscv_soc.Common.{
  ℕ, zero, suc, ◌+◌, ◌-◌, ◌*◌, ◌%◌, Bool, true, false, not, ◌&&◌, ◌||◌, List, [], ◌∷◌, ◌++◌, ltb,
  leb, ◌==◌,
}
use friscv_soc.Common.Words.{u8}
use friscv_soc.Common.Arrays.{length, take, replicate}
use friscv_soc.Common.Results.{Result, ok}
use friscv_soc.Common.Fallible.{◌>>=◌, ◌>>◌, guard}
use friscv_soc.Elf.{ElfSegment, ElfImage}

abbrev pub mem_base : ℕ
mem_base = 0x80000000

abbrev pub sram_size : ℕ
sram_size = 0x2000

abbrev pub parked : ℕ
parked = 1

abbrev pub riscv_machine : ℕ
riscv_machine = 243

abbrev pub zsbl_stage_bytes : ℕ
zsbl_stage_bytes = 0x1000

abbrev pub stage_pattern_start : ℕ
stage_pattern_start = 1024

-- `end`, at 64 bits.
abbrev pub segment_end : ElfSegment → ℕ
segment_end segment = segment.address + length segment.bytes

-- The test that sets `entry_ok`.
unfoldable pub holds_entry : ℕ → ElfSegment → Bool
holds_entry entry segment =
    segment.executable && (leb segment.address entry && ltb entry (segment_end segment))

module _ (sram_base : ℕ) where
  unfoldable pub is_external : ℕ → Bool
  is_external address = ltb address sram_base || leb (sram_base + sram_size) address

  -- The tests of one segment that throw.
  unfoldable pub check_segment : Bool → ElfSegment → Result (Unit {0})
  check_segment true segment =
      guard (not (ltb segment.address mem_base)) "ELF mixes external and SRAM segments"
  check_segment false segment =
      guard
        (not (ltb segment.address sram_base || ltb (sram_base + sram_size) (segment_end segment)))
        "ELF segment is outside SRAM"

  -- The loop of `validate`: whether a segment holds the entry, given whether one has before.
  unfoldable pub check_segments : ℕ → Bool → List ElfSegment → Result Bool
  check_segments entry entry_ok [] = ok entry_ok
  check_segments entry entry_ok (segment ∷ segments) =
      check_segment (is_external entry) segment
      >> check_segments entry (holds_entry entry segment || entry_ok) segments

  unfoldable pub validate : ElfImage → Result (Unit {0})
  validate image = do
    guard (image.machine == riscv_machine) "ELF is not for RISC-V"
    entry_ok ← check_segments image.entry false image.segments
    guard ((image.entry % 4 == 0) && (not (image.entry == parked) && entry_ok))
        "invalid ELF entry point"

-- The loop of `cmd_uartboot` that overwrites the tail, from index `i` on.
unfoldable pub pattern_from : ℕ → ℕ → List ℕ
pattern_from i zero = []
pattern_from i (suc n) = u8 (i * 7 + 0x5a) ∷ pattern_from (i + 1) n

-- The stage after `resize` and the loop.
unfoldable pub uart_stage : List ℕ → List ℕ
uart_stage file =
    take stage_pattern_start (file ++ replicate (zsbl_stage_bytes - length file) 0)
    ++ pattern_from stage_pattern_start (zsbl_stage_bytes - stage_pattern_start)
