-- ===== src/Elf.antt =====
-- target/sim/cpp/elf_loader.{hpp,cpp}: the ELF reader of both testbenches. The layout and the
-- constants of the system's elf.h are a parameter; a file is its bytes.
use Prim.Native.String.{String}
use friscv_soc.Common.{
  ℕ, zero, suc, ◌+◌, ◌-◌, ◌*◌, ◌/◌, ◌%◌, ◌^◌, Bool, true, false, not, ◌&&◌, ◌||◌, List, [], ◌∷◌,
  ◌++◌, Option, none, some, ltb, leb, ◌==◌, if◌then◌else◌,
}
use friscv_soc.Common.Words.{u8, u32, test_bit}
use friscv_soc.Common.Arrays.{length, replicate, get_or, take, drop}
use friscv_soc.Common.Results.{Result, ok, thrown, Act}
use friscv_soc.Common.Fallible.{◌>>=◌, ◌>>◌, guard}
use friscv_soc.Memory.{PagedMem, in_range, write_byte}
pub mod Load
pub mod Accept
pub mod Whole
mod Tests

-- `Elf32_Ehdr` and `Elf32_Phdr`, the fields that the reader uses.
pub record Ehdr : Type 0 where
  pub e_ident : List ℕ
  pub e_machine : ℕ
  pub e_entry : ℕ
  pub e_phoff : ℕ
  pub e_phentsize : ℕ
  pub e_phnum : ℕ

pub record Phdr : Type 0 where
  pub p_type : ℕ
  pub p_offset : ℕ
  pub p_paddr : ℕ
  pub p_filesz : ℕ
  pub p_memsz : ℕ
  pub p_flags : ℕ

-- elf.h: the sizes of the structures, what their bytes mean, the constants, and the test of PF_X.
pub record ElfHeader : Type 0 where
  pub ehdr_size : ℕ
  pub phdr_size : ℕ
  pub ehdr : List ℕ → Ehdr
  pub phdr : List ℕ → Phdr
  pub has_magic : List ℕ → Bool
  pub ei_class : ℕ
  pub elfclass32 : ℕ
  pub ei_data : ℕ
  pub elfdata2lsb : ℕ
  pub pt_load : ℕ
  pub is_executable : ℕ → Bool

-- `struct ElfSegment`
pub record ElfSegment : Type 0 where
  pub address : ℕ
  pub executable : Bool
  pub bytes : List ℕ

-- `struct ElfImage`
pub record ElfImage : Type 0 where
  pub machine : ℕ
  pub entry : ℕ
  pub segments : List ElfSegment

-- `check_range`, at 64 bits: the second test is made only if the first does not fail.
unfoldable pub in_file : ℕ → ℕ → ℕ → Bool
in_file offset size file_size = leb offset file_size && leb size (file_size - offset)

unfoldable pub check_range : ℕ → ℕ → ℕ → Result (Unit {0})
check_range offset size file_size = guard (in_file offset size file_size) "truncated ELF"

-- `read_at`, for a structure of `size` bytes that `decode` reads.
unfoldable pub read_at : {T : Type 0} → (List ℕ → T) → ℕ → List ℕ → ℕ → Result T
read_at decode size file offset = do
  check_range offset size (length file)
  ok (decode (take size (drop offset file)))

-- `fits`, for a segment that is not empty.
unfoldable pub fits : PagedMem → ElfSegment → Bool
unfolding in_range
fits memory segment =
    let end = segment.address + length segment.bytes in
    leb end 4294967296 && (in_range memory segment.address && in_range memory (u32 (end - 1)))

-- The inner loop of `load_elf`, from an address on.
unfoldable pub write_bytes : ℕ → List ℕ → PagedMem → PagedMem
write_bytes address [] memory = memory
write_bytes address (b ∷ bytes) memory =
    write_bytes (u32 (address + 1)) bytes (write_byte memory address b)

-- The outer loop of `load_elf`.
unfoldable pub load_segments : List ElfSegment → Act PagedMem (Unit {0})
load_segments [] memory = (ok tt, memory)
load_segments (segment ∷ segments) memory = elim (fits memory segment) [
  | true ↦ load_segments segments (write_bytes segment.address segment.bytes memory)
  | false ↦ (thrown "ELF segment outside memory range", memory)
]

-- What follows the read of the image in `load_elf`.
unfoldable pub load_image : Result ElfImage → Act PagedMem ℕ
load_image (thrown e) memory = (thrown e, memory)
load_image (ok image) memory =
    let (r, m) = load_segments image.segments memory in (r >>= (λ _. ok image.entry), m)

module _ (elf : ElfHeader) where
  unfoldable pub validate : Ehdr → Result (Unit {0})
  validate header = do
    guard (elf.has_magic header.e_ident) "not an ELF"
    guard (get_or header.e_ident elf.ei_class 0 == elf.elfclass32) "not ELF32"
    guard (get_or header.e_ident elf.ei_data 0 == elf.elfdata2lsb) "not little-endian"
    guard (leb elf.phdr_size header.e_phentsize) "invalid ELF program header"

  unfoldable pub read_segment : List ℕ → Phdr → Result ElfSegment
  read_segment file header = do
    guard (leb header.p_filesz header.p_memsz) "invalid ELF segment size"
    check_range header.p_offset header.p_filesz (length file)
    ok (record {
      address = header.p_paddr;
      executable = elf.is_executable header.p_flags;
      bytes =
          take header.p_filesz (drop header.p_offset file)
          ++ replicate (header.p_memsz - header.p_filesz) 0;
    })

  -- The loop over the program headers, from index `i` on with `n` headers left.
  unfoldable pub read_segments : ℕ → ℕ → Ehdr → List ℕ → Result (List ElfSegment)
  read_segments zero i header file = ok []
  read_segments (suc n) i header file =
      read_at elf.phdr elf.phdr_size file (header.e_phoff + i * header.e_phentsize) >>= λ program.
      elim ((program.p_type == elf.pt_load) && not (program.p_memsz == 0)) [
        | true ↦ read_segment file program >>= λ segment.
            read_segments n (i + 1) header file >>= λ rest. ok (segment ∷ rest)
        | false ↦ read_segments n (i + 1) header file
      ]

  abbrev pub is_empty : List ElfSegment → Bool
  is_empty [] = true
  is_empty (_ ∷ _) = false

  -- `read_elf`; `none` is a file that cannot be opened.
  unfoldable pub read_elf : Option (List ℕ) → Result ElfImage
  read_elf none = thrown "cannot open ELF"
  read_elf (some file) = do
    header ← read_at elf.ehdr elf.ehdr_size file 0
    validate header
    segments ← read_segments header.e_phnum 0 header file
    guard (not (is_empty segments)) "ELF has no loadable segments"
    ok (record { machine = header.e_machine; entry = header.e_entry; segments = segments })

  unfoldable pub load_elf : Option (List ℕ) → Act PagedMem ℕ
  load_elf file memory = load_image (read_elf file) memory
