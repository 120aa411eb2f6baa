-- ===== src/Board/Verdict/Tests.antt =====
-- The whole program on a small image and a core that writes the pass value in every cycle.
use Prim.Native.String.{String, compare}
use Prim.Native.Nat.{Ordering}
use friscv_soc.Common.{
  ℕ, ◌+◌, ◌%◌, ◌^◌, ◌≡◌, ◌↔◌, refl, Bool, true, false, List, [], ◌∷◌, ◌++◌, some, arith, ◌==◌,
  if◌then◌else◌,
}
use friscv_soc.Common.Arrays.{get_or, drop}
use friscv_soc.Bus.{Access}
use friscv_soc.Elf.{ElfHeader}
use friscv_soc.Board.{Core, pass_value}
use friscv_soc.Board.CommandLine.{Text, Host, main}
use friscv_soc.Board.Verdict.{Passed, main-Passed}

abbrev is_name : String → String → Bool
is_name a b = elim (compare a b) [ Ordering.eq ↦ true | _ ↦ false ]

-- An option is a text of one character, and so is a number.
abbrev character_of : String → ℕ
character_of name =
    if is_name name "--elf"
    then 1
    else if is_name name "--max-cycles"
    then 2
    else if is_name name "--wait-cycles"
    then 3
    else 4

abbrev small_host : Host
small_host = record {
  strtol = λ text. (get_or text 0 0 % 2 ^ 64, drop 1 text);
  same_text = λ text name. get_or text 0 0 == character_of name;
  read_file = λ path. some (1 ∷ 2 ∷ 3 ∷ 4 ∷ []);
}

abbrev small_elf : ElfHeader
small_elf = record {
  ehdr_size = 1;
  phdr_size = 1;
  ehdr = λ bytes. record {
    e_ident = 0 ∷ 1 ∷ 1 ∷ [];
    e_machine = 243;
    e_entry = 0x80000000;
    e_phoff = 0;
    e_phentsize = 1;
    e_phnum = 1;
  };
  phdr = λ bytes. record {
    p_type = 1;
    p_offset = 0;
    p_paddr = 0x80000000;
    p_filesz = 4;
    p_memsz = 4;
    p_flags = 1;
  };
  has_magic = λ ident. true;
  ei_class = 1;
  elfclass32 = 1;
  ei_data = 2;
  elfdata2lsb = 1;
  pt_load = 1;
  is_executable = λ flags. true;
}

abbrev store_pass : Access
store_pass = record {
  size = 2;
  offset = 0x40000000;
  wdata = pass_value;
  w_en = true;
  r_en = false;
  burst_en = false;
}

-- The core counts its clock edges and halts after the 22nd.
abbrev writing : Core ℕ
writing = record {
  posedge = λ c. c + 1;
  negedge = λ c. c;
  access = λ c. store_pass;
  drive_bus = λ out c. c;
  drive_clint = λ mtime msip mtip c. c;
  release_reset = λ c. c;
  halt_o = λ c. c == 22;
  got_finish = λ c. false;
}

abbrev fill : ℕ → ℕ → ℕ
fill page offset = 0

abbrev uniform : ℕ → ℕ → ℕ → ℕ
uniform low high draw = low

-- The arguments: `--elf`, a path, `--max-cycles`, 99 and `--check-pass`.
main-Passed_example :
    let args : List Text = ((1 ∷ []) ∷ (7 ∷ []) ∷ (2 ∷ []) ∷ (99 ∷ []) ∷ []) ++ (4 ∷ []) ∷ [] in
    ((main writing small_elf small_host fill uniform args 0).status ≡ 0)
    ↔ Passed writing small_elf small_host fill uniform args 0
main-Passed_example =
    main-Passed writing small_elf small_host fill uniform
      ((1 ∷ []) ∷ (7 ∷ []) ∷ (2 ∷ []) ∷ (99 ∷ []) ∷ []) [] (4 ∷ []) 0 (λ text. omega arith) refl
