-- ===== src/SocMemory.antt =====
-- target/sim/cpp/soc_memory.{hpp,cpp}: the preload of the on-chip memory behind the SoC's back. The
-- macros have their defaults: an on-chip memory of 0x2000 bytes, which is split over the cache ways
-- unless `ocm_only` holds.
use friscv_soc.Common.{
  ℕ, zero, suc, ◌+◌, ◌-◌, ◌*◌, ◌/◌, ◌%◌, ◌^◌, Bool, true, false, ◌&&◌, List, [], ◌∷◌, ltb, ◌==◌,
  if◌then◌else◌,
}
use friscv_soc.Common.Words.{u32, sub32}
use friscv_soc.Common.Results.{Result, ok, thrown, Act, then_do, ◌>>◌}
use friscv_soc.Elf.{ElfSegment, ElfImage}
pub mod Bytes
pub mod Preload
mod Tests

abbrev pub ocm_words : ℕ
ocm_words = 2048

abbrev pub way_words : ℕ
way_words = 512

-- The words of the memory's macros, by macro and index.
abbrev pub Sram : Type 0
Sram = ℕ → ℕ → ℕ

-- The macro and the index of `sram_word`: the words of a way are a contiguous slice.
unfoldable pub sram_way : Bool → ℕ → ℕ
sram_way ocm_only index = if ocm_only then 0 else index / way_words

unfoldable pub sram_index : Bool → ℕ → ℕ
sram_index ocm_only index = if ocm_only then index else index % way_words

-- The assignment to the word that `sram_word` refers to.
unfoldable pub set_word : Bool → ℕ → ℕ → Sram → Sram
set_word ocm_only index word sram way i =
    if (sram_way ocm_only index == way) && (sram_index ocm_only index == i)
    then word
    else sram way i

unfoldable pub get_word : Bool → ℕ → Sram → ℕ
get_word ocm_only index sram = sram (sram_way ocm_only index) (sram_index ocm_only index)

-- `(word & ~(0xff << shift)) | (data << shift)`, for a byte of data.
unfoldable pub set_byte : ℕ → ℕ → ℕ → ℕ
set_byte word shift byte = word - word / 2 ^ shift % 256 * 2 ^ shift + byte * 2 ^ shift

unfoldable pub write_byte : Bool → ℕ → ℕ → Act Sram (Unit {0})
write_byte ocm_only offset byte sram = elim (ltb (offset / 4) ocm_words) [
  | true ↦ (
    ok tt,
    set_word ocm_only (offset / 4)
        (set_byte (get_word ocm_only (offset / 4) sram) (offset % 4 * 8) byte) sram,
  )
  | false ↦ (thrown "SRAM preload past the end of the OCM", sram)
]

-- The loops of `preload_sram`.
unfoldable pub preload_bytes : Bool → ℕ → List ℕ → Act Sram (Unit {0})
preload_bytes ocm_only offset [] sram = (ok tt, sram)
preload_bytes ocm_only offset (b ∷ bytes) sram =
    then_do (write_byte ocm_only offset b sram)
      (λ _. preload_bytes ocm_only (u32 (offset + 1)) bytes)

unfoldable pub preload_segments : Bool → ℕ → List ElfSegment → Act Sram (Unit {0})
preload_segments ocm_only base [] sram = (ok tt, sram)
preload_segments ocm_only base (s ∷ segments) sram =
    then_do (preload_bytes ocm_only (sub32 s.address base) s.bytes sram)
      (λ _. preload_segments ocm_only base segments)

unfoldable pub preload_sram : Bool → ElfImage → ℕ → Act Sram (Unit {0})
preload_sram ocm_only image sram_base = preload_segments ocm_only sram_base image.segments
