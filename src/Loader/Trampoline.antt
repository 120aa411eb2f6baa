-- ===== src/Loader/Trampoline.antt =====
-- sw/sdk/loaders/sdbl.c: the trampoline, which `sd_main` copies behind the image and jumps to. Its
-- machine code is the assembler's and a parameter; what its instructions do is `tramp_blob`.
use mathlib.Core.Path.{subst}
use mathlib.Core.Option.{some-injective, none-ne-some}
use friscv_soc.Common.{
  ℕ, ◌+◌, ◌-◌, ◌*◌, ◌/◌, ◌%◌, ◌^◌, ◌<◌, ◌≡◌, refl, sym, ap, ◌∙◌, inl, true, List, [], ◌∷◌, Option,
  none, some, arith,
}
use friscv_soc.Common.Arrays.{update}
use friscv_soc.Common.Bytes.{stored, stored_outside}
use friscv_soc.Common.Words.{u8}
use friscv_soc.Loader.{
  Registers, WordArray, Outcome, booted, failed, ram_base, words_of, sd_init, start_clocks,
  sd_read_block, read_image, blocks_of, sd_main,
}
use friscv_soc.Loader.Accept.{Verified, sd_main-booted}

-- The address of LLCSEL, and LLC_WAYS.
abbrev pub llcsel : ℕ
llcsel = 0x03000000 + 0xc

abbrev pub llc_ways : ℕ
llc_ways = 0xf

-- Where the hart goes on, with its first two argument registers.
pub record Hart : Type 0 where
  pub pc : ℕ
  pub a0 : ℕ
  pub a1 : ℕ

-- The memory at RAM_BASE as bytes, the low byte of a word first.
unfoldable pub byte_at : WordArray → ℕ → ℕ
byte_at words k = words (k / 4) / 2 ^ (8 * (k % 4)) % 256

-- The loop that copies the trampoline, to an offset in that memory.
unfoldable pub copy_tramp : List ℕ → ℕ → (ℕ → ℕ) → ℕ → ℕ
copy_tramp [] tramp memory = memory
copy_tramp (p ∷ rest) tramp memory = copy_tramp rest (tramp + 1) (update memory tramp (u8 p))

-- What the image finds.
pub record Started (S : Type 0) : Type 0 where
  pub hart : Hart
  pub memory : ℕ → ℕ
  pub peripherals : S

module _ {S : Type 0} (regs : Registers S) where
  -- The instructions of the trampoline: a write of LLCSEL, zeros in `a0` and `a1`, and the jump.
  unfoldable pub tramp_blob : S → Hart × S
  tramp_blob s = (record { pc = ram_base; a0 = 0; a1 = 0 }, regs.write llcsel llc_ways s)

  -- The end of `sd_main`, from the copy on.
  unfoldable pub jump : List ℕ → (Outcome × (WordArray × S)) → Option (Started S)
  jump tramp (booted entry, (dst, s)) =
      let (hart, t) = tramp_blob s in
      some (record {
        hart = hart;
        memory = copy_tramp tramp (entry - ram_base) (byte_at dst);
        peripherals = t;
      })
  jump tramp (failed reason, r) = none

  unfoldable pub boot : List ℕ → WordArray → WordArray → S → Option (Started S)
  boot tramp header dst s = jump tramp (sd_main regs header dst s)

copy_tramp-stored :
    (tramp : List ℕ) (at : ℕ) (memory : ℕ → ℕ) → copy_tramp tramp at memory ≡ stored memory at tramp
unfolding copy_tramp stored
copy_tramp-stored [] at memory = refl
copy_tramp-stored (p ∷ rest) at memory = copy_tramp-stored rest (at + 1) (update memory at (u8 p))

module _ {S : Type 0} (regs : Registers S) where
  jump-booted :
      (tramp : List ℕ) (r : Outcome × (WordArray × S)) (g : Started S)
      → jump regs tramp r ≡ some g
      → (entry : ℕ) × (r.0 ≡ booted entry)
        × (record {
          hart = record { pc = ram_base; a0 = 0; a1 = 0 };
          memory = copy_tramp tramp (entry - ram_base) (byte_at r.1.0);
          peripherals = regs.write llcsel llc_ways r.1.1;
        }
            ≡ g)
  unfolding jump tramp_blob
  jump-booted tramp (booted entry, (dst, s)) g h = (entry, refl, some-injective _ g h)
  jump-booted tramp (failed reason, r) g h = absurd (none-ne-some g h)

  -- What the image finds: the hart at the start of the memory with zeros in `a0` and `a1`, the ways
  -- given to the cache by the last write to a register, and every byte of its words as the loader
  -- left it.
  pub record Running (image : WordArray × S) (size : ℕ) (g : Started S) : Type 0 where
    pub starts : g.hart ≡ record { pc = ram_base; a0 = 0; a1 = 0 }
    pub ways_cached : g.peripherals ≡ regs.write llcsel llc_ways image.1
    pub intact : (k : ℕ) → k < 4 * words_of size → g.memory k ≡ byte_at image.0 k

  -- An image runs only after the card is initialised, the header block and every block of the image
  -- are read, the header has the magic number and a length in range, and the words of the image sum
  -- to the header's checksum; it then runs from its start, with the cache's ways set last, and the
  -- trampoline has overwritten no byte of its words.
  pub boot-Running :
      (tramp : List ℕ) (header dst : WordArray) (s : S) (g : Started S)
      → boot regs tramp header dst s ≡ some g
      → let card = sd_init regs (start_clocks regs s) in
        let first = sd_read_block regs 0 header 0 card.1 in
        let image = read_image regs (blocks_of (first.1.0 1)) 0 dst first.1.1 in
        (card.0 ≡ true)
        × (first.0 ≡ true)
        × (image.0 ≡ true)
        × Verified first.1.0 image.1.0 (ram_base + words_of (first.1.0 1) * 4)
        × Running image.1 (first.1.0 1) g
  unfolding boot
  boot-Running tramp header dst s g h =
      let card = sd_init regs (start_clocks regs s) in
      let first = sd_read_block regs 0 header 0 card.1 in
      let image = read_image regs (blocks_of (first.1.0 1)) 0 dst first.1.1 in
      let r = sd_main regs header dst s in
      let (entry, jumps, e) = jump-booted tramp r g h in
      let (ready, read, loaded, checked, left) = sd_main-booted regs header dst s entry jumps in
      let at = entry - ram_base in
      let behind = checked.entry_ok in
      (
        ready,
        read,
        loaded,
        subst (Verified first.1.0 image.1.0) behind checked,
        record {
          starts = sym (ap (λ x. x.hart) e);
          ways_cached =
              sym (ap (λ x. x.peripherals) e) ∙ ap (λ p. regs.write llcsel llc_ways p.1) left;
          intact = λ k below.
              sym (ap (λ x. x.memory k) e)
              ∙ ap (λ f. f k) (copy_tramp-stored tramp at (byte_at r.1.0))
              ∙ stored_outside tramp (byte_at r.1.0) at k (inl (omega (arith, behind, below)))
              ∙ ap (λ p. byte_at p.0 k) left;
        },
      )
