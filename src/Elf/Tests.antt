-- ===== src/Elf/Tests.antt =====
-- Two segments in a small memory, the second over the end of the first.
use friscv_soc.Common.{◌≡◌, ℕ, ◌+◌, some, true, false, List, [], ◌∷◌, none, arith}
use friscv_soc.Memory.{PagedMem, in_range}
use friscv_soc.Memory.View.{view}
use friscv_soc.Common.Arrays.{get_or}
use friscv_soc.Common.Bytes.{stored}
use friscv_soc.Common.Fallible.{accepted}
use friscv_soc.Elf.{ElfHeader, ElfSegment, read_elf, load_elf, fits}
use friscv_soc.Elf.Accept.{headers_ok, segments_of, accepted-read_elf}
use friscv_soc.Elf.Whole.{load_elf_lem}
use friscv_soc.Elf.Load.{fitting, all_fit, image_view}

abbrev small_mem : PagedMem
small_mem = record {
  base = 4096;
  mem_size = 8192;
  page_count = 2;
  pages = λ _. none;
  fill = λ page k. 0;
}

abbrev two_segments : List ElfSegment
two_segments =
    record { address = 4098; executable = true; bytes = 17 ∷ 34 ∷ 51 ∷ [] }
    ∷ record { address = 4100; executable = false; bytes = 68 ∷ 85 ∷ [] }
    ∷ []

-- A file whose first byte counts its segments, each of a byte at the address that the header says.
abbrev byte_elf : ElfHeader
byte_elf = record {
  ehdr_size = 1;
  phdr_size = 2;
  ehdr = λ bytes. record {
    e_ident = 0 ∷ 1 ∷ 1 ∷ [];
    e_machine = 243;
    e_entry = 4098;
    e_phoff = 1;
    e_phentsize = 2;
    e_phnum = get_or bytes 0 0;
  };
  phdr = λ bytes. record {
    p_type = 1;
    p_offset = get_or bytes 1 0;
    p_paddr = 4096 + get_or bytes 0 0;
    p_filesz = 1;
    p_memsz = 2;
    p_flags = 1;
  };
  has_magic = λ bytes. true;
  ei_class = 1;
  elfclass32 = 1;
  ei_data = 2;
  elfdata2lsb = 1;
  pt_load = 1;
  is_executable = λ flags. true;
}

abbrev two_bytes : List ℕ
two_bytes = 2 ∷ 4 ∷ 5 ∷ 9 ∷ 0 ∷ 77 ∷ []

accepted-read_elf_example :
    accepted (read_elf byte_elf (some two_bytes))
    ≡ some (record {
      machine = 243;
      entry = 4098;
      segments =
          record { address = 4100; executable = true; bytes = 77 ∷ 0 ∷ [] }
          ∷ record { address = 4105; executable = true; bytes = 2 ∷ 0 ∷ [] }
          ∷ [];
    })
unfolding headers_ok segments_of
accepted-read_elf_example = accepted-read_elf byte_elf two_bytes

load_elf_lem_example :
    let r = load_elf byte_elf (some two_bytes) small_mem in
    (accepted r.0 ≡ some 4098) × (view r.1 4100 ≡ 77)
unfolding headers_ok segments_of fitting all_fit fits in_range image_view stored
load_elf_lem_example = load_elf_lem byte_elf two_bytes small_mem 4100 (omega arith) (omega arith)
