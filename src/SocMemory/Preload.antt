-- ===== src/SocMemory/Preload.antt =====
-- The preload of an image, against the image in the flat memory.
use friscv_soc.Common.{ℕ, ◌+◌, ◌-◌, ◌*◌, ◌^◌, ◌≤◌, ◌≡◌, refl, ap, ◌∙◌, Bool, List, [], ◌∷◌, arith}
use friscv_soc.Common.Words.{u8, u32, sub32}
use friscv_soc.Common.Arrays.{length, update}
use friscv_soc.Common.Bytes.{AllBytes, stored, stored_at}
use friscv_soc.Common.Results.{ok, then_do}
use friscv_soc.Elf.{ElfSegment, ElfImage}
use friscv_soc.Elf.Load.{image_view, image_view_at}
use friscv_soc.SocMemory.{
  Sram, ocm_words, write_byte, preload_bytes, preload_segments, preload_sram,
}
use friscv_soc.SocMemory.Bytes.{byte_at, write_byte_lem}

-- The memory at its base address.
abbrev pub sram_view : Bool → ℕ → Sram → ℕ → ℕ
sram_view ocm_only base sram a = byte_at ocm_only sram (a - base)

-- Every segment lies in the memory and holds bytes.
abbrev pub AllInside : ℕ → List ElfSegment → Type 0
AllInside base [] = Unit
AllInside base (s ∷ segments) =
    (base ≤ s.address)
    × (s.address + length s.bytes ≤ base + 4 * ocm_words)
    × AllBytes s.bytes
    × AllInside base segments

module _ (ocm_only : Bool) (base : ℕ) (fits : base + 4 * ocm_words ≤ 2 ^ 32) where
  preload_bytes_lem :
      (bytes : List ℕ) (a : ℕ) (sram : Sram) (b : ℕ)
      → base ≤ a
      → a + length bytes ≤ base + 4 * ocm_words
      → AllBytes bytes
      → base ≤ b
      → let r = preload_bytes ocm_only (a - base) bytes sram in
        (r.0 ≡ ok tt)
        × (sram_view ocm_only base r.1 b ≡ stored (sram_view ocm_only base sram) a bytes b)
  unfolding preload_bytes stored
  preload_bytes_lem [] a sram b lo hi all hb = (refl, refl)
  preload_bytes_lem (x ∷ bytes) a sram b lo hi all hb =
      let w = write_byte ocm_only (a - base) x sram in
      let (done, new) = write_byte_lem ocm_only (a - base) x (b - base) sram (omega arith) all.0 in
      let next : u32 (a - base + 1) ≡ a + 1 - base = omega arith in
      let (rest, mem_ok) =
        preload_bytes_lem bytes (a + 1) w.1 b (omega arith) (omega arith) all.1 hb in
      let run : preload_bytes ocm_only (a - base) (x ∷ bytes) sram
          ≡ preload_bytes ocm_only (a + 1 - base) bytes w.1 =
        ap (λ r. then_do (r, w.1) (λ _. preload_bytes ocm_only (u32 (a - base + 1)) bytes)) done
        ∙ ap (λ o. preload_bytes ocm_only o bytes w.1) next in
      (
        ap (λ r. r.0) run ∙ rest,
        ap (λ r. sram_view ocm_only base r.1 b) run
            ∙ mem_ok
            ∙ stored_at bytes (sram_view ocm_only base w.1)
                (update (sram_view ocm_only base sram) a (u8 x)) (a + 1) b (new ∙ ground arith),
      )

  preload_segments_lem :
      (segments : List ElfSegment) (sram : Sram) (b : ℕ)
      → AllInside base segments
      → base ≤ b
      → let r = preload_segments ocm_only base segments sram in
        (r.0 ≡ ok tt)
        × (sram_view ocm_only base r.1 b ≡ image_view segments (sram_view ocm_only base sram) b)
  unfolding preload_segments image_view
  preload_segments_lem [] sram b all hb = (refl, refl)
  preload_segments_lem (s ∷ segments) sram b all hb =
      let (lo, hi, bytes_ok, others) = all in
      let t = (preload_bytes ocm_only (s.address - base) s.bytes sram).1 in
      let (done, here) = preload_bytes_lem s.bytes s.address sram b lo hi bytes_ok hb in
      let (rest, mem_ok) = preload_segments_lem segments t b others hb in
      let at : sub32 s.address base ≡ s.address - base = omega arith in
      let run : preload_segments ocm_only base (s ∷ segments) sram
          ≡ preload_segments ocm_only base segments t =
        ap
          (λ o.
            then_do (preload_bytes ocm_only o s.bytes sram)
              (λ _. preload_segments ocm_only base segments))
          at
        ∙ ap (λ r. then_do (r, t) (λ _. preload_segments ocm_only base segments)) done in
      (
        ap (λ r. r.0) run ∙ rest,
        ap (λ r. sram_view ocm_only base r.1 b) run
            ∙ mem_ok
            ∙ image_view_at segments (sram_view ocm_only base t)
                (stored (sram_view ocm_only base sram) s.address s.bytes) b here,
      )

  -- An image whose segments lie in the memory is preloaded without an error, and what the macros
  -- then hold, seen as bytes from the base address on, is the image in the flat memory, the later
  -- segments over the earlier, with no other byte changed; this holds for both layouts.
  pub preload_sram_lem :
      (image : ElfImage) (sram : Sram) (b : ℕ)
      → AllInside base image.segments
      → base ≤ b
      → let r = preload_sram ocm_only image base sram in
        (r.0 ≡ ok tt)
        × (sram_view ocm_only base r.1 b
            ≡ image_view image.segments (sram_view ocm_only base sram) b)
  unfolding preload_sram
  preload_sram_lem image sram b all hb = preload_segments_lem image.segments sram b all hb
