-- ===== src/Elf/Whole.antt =====
-- What `load_elf` does with a file and a memory.
use Prim.Native.String.{String}
use friscv_soc.Common.{
  ℕ, ◌^◌, ◌<◌, ◌≡◌, refl, ap, ◌∙◌, Bool, true, false, ◌&&◌, List, Option, none, some, if◌then◌else◌,
}
use friscv_soc.Common.Results.{Result, ok, thrown}
use friscv_soc.Common.Fallible.{◌>>=◌, accepted, when}
use friscv_soc.Memory.{PagedMem}
use friscv_soc.Memory.View.{view}
use friscv_soc.Elf.{ElfHeader, ElfImage, load_image, load_elf, read_elf}
use friscv_soc.Elf.Load.{image_view, fitting, all_fit, load_segments_lem}
use friscv_soc.Elf.Accept.{elf_ok, image_of, accepted-read_elf}

-- The entry that is returned, and the memory that is left, by the image that was read.
abbrev entry_of : PagedMem → Option ElfImage → Option ℕ
entry_of m none = none
entry_of m (some image) = when (all_fit m image.segments) (some image.entry)

abbrev memory_of : PagedMem → Option ElfImage → ℕ → ℕ
memory_of m none b = view m b
memory_of m (some image) b = image_view (fitting m image.segments) (view m) b

accepted-fitting :
    (all : Bool) (e : String) (entry : ℕ)
    → accepted ((if all then ok tt else thrown e) >>= λ _. ok entry) ≡ when all (some entry)
accepted-fitting true e entry = refl
accepted-fitting false e entry = refl

load_image_lem :
    (r : Result ElfImage) (m : PagedMem) (b : ℕ)
    → m.base < 2 ^ 32
    → b < 2 ^ 32
    → let l = load_image r m in
      (accepted l.0 ≡ entry_of m (accepted r)) × (view l.1 b ≡ memory_of m (accepted r) b)
unfolding load_image
load_image_lem (thrown e) m b hm hb = (refl, refl)
load_image_lem (ok image) m b hm hb =
    let (same, went) = load_segments_lem image.segments m b hm hb in
    (
      ap (λ r. accepted (r >>= λ _. ok image.entry)) went
          ∙ accepted-fitting (all_fit m image.segments) "ELF segment outside memory range"
              image.entry,
      same,
    )

entry_of-when :
    (b : Bool) (m : PagedMem) (image : ElfImage)
    → entry_of m (if b then some image else none)
      ≡ (if b && all_fit m image.segments then some image.entry else none)
entry_of-when true m image = refl
entry_of-when false m image = refl

memory_of-when :
    (b : Bool) (m : PagedMem) (image : ElfImage) (a : ℕ)
    → memory_of m (if b then some image else none) a
      ≡ (if b then image_view (fitting m image.segments) (view m) a else view m a)
memory_of-when true m image a = refl
memory_of-when false m image a = refl

-- The load of a file returns the entry exactly if the file is accepted and every segment of its
-- image fits the memory. A file that is not accepted leaves every byte as it was; one that is puts
-- the segments before the first that does not fit into memory, the later over the earlier, and
-- changes no other byte.
pub load_elf_lem :
    (elf : ElfHeader) (file : List ℕ) (m : PagedMem) (b : ℕ)
    → m.base < 2 ^ 32
    → b < 2 ^ 32
    → let image = image_of elf file in
      let r = load_elf elf (some file) m in
      (accepted r.0
        ≡ (if elf_ok elf file && all_fit m image.segments then some image.entry else none))
      × (view r.1 b ≡ (
          if elf_ok elf file then image_view (fitting m image.segments) (view m) b else view m b))
unfolding load_elf
load_elf_lem elf file m b hm hb =
    let image = image_of elf file in
    let (entry, same) = load_image_lem (read_elf elf (some file)) m b hm hb in
    let read = accepted-read_elf elf file in
    (
      entry ∙ ap (entry_of m) read ∙ entry_of-when (elf_ok elf file) m image,
      same ∙ ap (λ o. memory_of m o b) read ∙ memory_of-when (elf_ok elf file) m image b,
    )
