-- ===== src/Board/CommandLine.antt =====
-- target/sim/cpp/tb_core_main.cpp: the command line of `main`, the load of the ELF file and the exit
-- code. The C library and the files are a parameter.
use Prim.Native.String.{String}
use friscv_soc.Common.{
  ℕ, Bool, true, false, not, ◌||◌, List, [], ◌∷◌, Option, none, some, ltb, leb, ◌==◌, if◌then◌else◌,
}
use friscv_soc.Common.Words.{u32}
use friscv_soc.Common.Attempts.{Attempt, done, gave_up}
use friscv_soc.Common.Results.{Result, ok, thrown}
use friscv_soc.Memory.{PagedMem, new_mem}
use friscv_soc.MemModel.{WaitConfig, fixed, rand_range, rand_max, unknown, new_mem_model}
use friscv_soc.Elf.{ElfHeader, load_elf}
use friscv_soc.Board.{Core, Bench, simulate, last_write_of, gpio_index, pass_value}

-- A C string, as its characters.
abbrev pub Text : Type 0
Text = List ℕ

-- `strtol` with base 10, its value as the 64 bits of a `long` and the rest of the text at `endptr`,
-- `strcmp` against a name, and the file at a path.
pub record Host : Type 0 where
  pub strtol : Text → ℕ × Text
  pub same_text : Text → String → Bool
  pub read_file : Text → Option (List ℕ)

-- What the program writes to stderr.
pub data Message : Type 0 where
  usage : Message
  invalid_max_cycles invalid_wait_cycles : Text → Message
  failed_to_load : Text → String → Message
  reported_pass : Message
  reported_fail : ℕ → Message

abbrev pub default_max_cycles : ℕ
default_max_cycles = 10000000

abbrev pub default_wait_cycles : WaitConfig
default_wait_cycles = fixed 0

abbrev pub mem_base_addr : ℕ
mem_base_addr = 0x80000000

abbrev pub mem_size : ℕ
mem_size = 0x01000000

-- What follows a step of the command line that may end the program.
abbrev pub and_then :
    {A B : Type 0} → Attempt Message A → (A → Attempt Message B) → Attempt Message B
and_then (done a) f = f a
and_then (gave_up message) f = gave_up message

abbrev pub is_empty : Text → Bool
is_empty [] = true
is_empty (_ ∷ _) = false

-- The 64 bits of a `long` as the `int wait_cycles` of the memory's constructor.
unfoldable pub wait_config : ℕ → WaitConfig
wait_config bits =
    let value = u32 bits in
    if ltb value 0x80000000
    then fixed value
    else if value == 0xffffffff
    then rand_range
    else if value == 0xfffffffe
    then rand_max
    else unknown

-- The options once they are read.
pub record Options : Type 0 where
  pub elf_path : Text
  pub max_cycles : ℕ
  pub wait_cycles : WaitConfig
  pub check_pass : Bool

module _ (host : Host) where
  -- The loop that looks for `--elf`, over the arguments after the program's name; the last argument
  -- is not looked at.
  unfoldable pub find_elf : List Text → Option Text → Option Text
  find_elf [] elf_path = elf_path
  find_elf (name ∷ []) elf_path = elf_path
  find_elf (name ∷ next ∷ rest) elf_path =
      find_elf (next ∷ rest) (if host.same_text name "--elf" then some next else elf_path)

  -- `val <= 0` is a test of the unsigned number.
  unfoldable pub parse_max_cycles : Text → Attempt Message ℕ
  parse_max_cycles text =
      let (val, end) = host.strtol text in
      if not (is_empty end) || leb val 0 then gave_up (invalid_max_cycles text) else done val

  unfoldable pub find_max_cycles : List Text → ℕ → Attempt Message ℕ
  find_max_cycles [] max_cycles = done max_cycles
  find_max_cycles (name ∷ []) max_cycles = done max_cycles
  find_max_cycles (name ∷ next ∷ rest) max_cycles = elim (host.same_text name "--max-cycles") [
    | true ↦ and_then (parse_max_cycles next) (λ val. find_max_cycles (next ∷ rest) val)
    | false ↦ find_max_cycles (next ∷ rest) max_cycles
  ]

  unfoldable pub parse_wait_cycles : Text → Attempt Message WaitConfig
  parse_wait_cycles text =
      let (val, end) = host.strtol text in
      if not (is_empty end) then gave_up (invalid_wait_cycles text) else done (wait_config val)

  unfoldable pub find_wait_cycles : List Text → WaitConfig → Attempt Message WaitConfig
  find_wait_cycles [] wait_cycles = done wait_cycles
  find_wait_cycles (name ∷ []) wait_cycles = done wait_cycles
  find_wait_cycles (name ∷ next ∷ rest) wait_cycles = elim (host.same_text name "--wait-cycles") [
    | true ↦ and_then (parse_wait_cycles next) (λ val. find_wait_cycles (next ∷ rest) val)
    | false ↦ find_wait_cycles (next ∷ rest) wait_cycles
  ]

  -- The loop that looks for `--check-pass` looks at every argument.
  unfoldable pub find_check_pass : List Text → Bool → Bool
  find_check_pass [] check_pass = check_pass
  find_check_pass (name ∷ rest) check_pass =
      find_check_pass rest (host.same_text name "--check-pass" || check_pass)

  unfoldable pub require_elf : Option Text → Attempt Message Text
  require_elf none = gave_up usage
  require_elf (some elf_path) = done elf_path

  unfoldable pub read_options : List Text → Attempt Message Options
  read_options args = and_then (require_elf (find_elf args none)) (λ elf_path.
      and_then (find_max_cycles args default_max_cycles) (λ max_cycles.
        and_then (find_wait_cycles args default_wait_cycles) (λ wait_cycles. done (record {
          elf_path = elf_path;
          max_cycles = max_cycles;
          wait_cycles = wait_cycles;
          check_pass = find_check_pass args false;
        }))))

-- The verdict on the last word written to the GPIO.
unfoldable pub report : Bool → ℕ → List Message
report check_pass last_write =
    if check_pass
    then (if last_write == pass_value then reported_pass ∷ [] else reported_fail last_write ∷ [])
    else []

-- How the program ends: its exit code, what it has written to stderr, and the simulation if there
-- was one.
pub record Ended (C : Type 0) : Type 0 where
  pub status : ℕ
  pub messages : List Message
  pub bench : Option (Bench C)

module _ {C : Type 0} (core : Core C) (elf : ElfHeader) (host : Host) (fill : ℕ → ℕ → ℕ)
    (uniform : ℕ → ℕ → ℕ → ℕ) where
  -- `main` after the command line: `top` is the core as the first evaluation leaves it.
  unfoldable pub run_loaded : Options → C → (Result ℕ × PagedMem) → Ended C
  run_loaded o top (thrown e, mem_pool) = record {
    status = 1;
    messages = failed_to_load o.elf_path e ∷ [];
    bench = none;
  }
  run_loaded o top (ok entry, mem_pool) =
      let dram = new_mem_model uniform mem_pool o.wait_cycles in
      let (code, b) = simulate core o.check_pass o.max_cycles top dram in
      record {
        status = code;
        messages = report o.check_pass (last_write_of (b.store gpio_index));
        bench = some b;
      }

  unfoldable pub main_with : Attempt Message Options → C → Ended C
  main_with (gave_up message) top = record { status = 1; messages = message ∷ []; bench = none }
  main_with (done o) top =
      run_loaded o top
        (load_elf elf (host.read_file o.elf_path) (new_mem fill mem_base_addr mem_size))

  -- `main`, on the arguments after the program's name.
  unfoldable pub main : List Text → C → Ended C
  main args top = main_with (read_options host args) top
